-- ===== src/CoreWriter/Simulation.antt =====
-- `write_core` on any lawful writer, against the same on a `Vec<u8>`.
use minidump2core.Prelude.{ℕ, ◌≡◌, List, [], ◌∷◌}
use minidump2core.Error.{ok}
use minidump2core.Writer.{Write, vec_write}
use minidump2core.Writer.Simulation.{
  IsLawful, Simulates, sim_write_all, sim_done, sim_seq, sim_bind, sim_if,
}
use minidump2core.Elf.Simulation.{sim_program_header, sim_elf_header}
use minidump2core.Model.Mapping.{Mapping}
use minidump2core.NoteSegment.{Process}
use minidump2core.CoreWriter.{write_load_phdrs, write_load_data, write_layout, write_core}

ruleset sim_rules =
    (sim_write_all, sim_done, sim_seq, sim_bind, sim_if, sim_program_header, sim_elf_header)

module _ {W : Type 0} (wr : Write W) (law : IsLawful wr) where
  sim_load_phdrs :
      (ms : List Mapping) (load_offset empty_load_offset class : ℕ)
      → Simulates wr law
          (write_load_phdrs ⦃wr = wr⦄ ms load_offset empty_load_offset class)
          (write_load_phdrs ⦃wr = vec_write⦄ ms load_offset empty_load_offset class)
  unfolding write_load_phdrs
  sim_load_phdrs [] o z c = search sim_rules
  sim_load_phdrs (m ∷ ms) o z c = search (sim_rules, sim_load_phdrs ms _ z c)

  sim_load_data :
      (ms : List Mapping)
      → Simulates wr law (write_load_data ⦃wr = wr⦄ ms) (write_load_data ⦃wr = vec_write⦄ ms)
  unfolding write_load_data
  sim_load_data [] = search sim_rules
  sim_load_data (m ∷ ms) = search (sim_rules, sim_load_data ms)

  sim_layout :
      (p : Process) (note_bytes : List ℕ) (phnum_u16 : ℕ)
      → Simulates wr law
          (write_layout ⦃wr = wr⦄ p note_bytes phnum_u16)
          (write_layout ⦃wr = vec_write⦄ p note_bytes phnum_u16)
  unfolding write_layout
  sim_layout p note_bytes phnum_u16 = search (sim_rules, sim_load_phdrs, sim_load_data) depth 12

  sim_core :
      (p : Process) → Simulates wr law (write_core ⦃wr = wr⦄ p) (write_core ⦃wr = vec_write⦄ p)
  unfolding write_core
  sim_core p = search (sim_rules, sim_layout) depth 12

  -- Where `write_core` succeeds on a writer that keeps what it is given, the same call succeeds on a
  -- `Vec<u8>` that holds what the writer held, and the writer ends with the bytes of that vector.
  pub write_core_written :
      (p : Process) (w w' : W)
      → write_core ⦃wr = wr⦄ p w ≡ ok w'
      → write_core ⦃wr = vec_write⦄ p (law.written w) ≡ ok (law.written w')
  write_core_written p w w' e = sim_core p w w' e
