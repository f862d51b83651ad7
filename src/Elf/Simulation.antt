-- ===== src/Elf/Simulation.antt =====
-- The writers of src/elf.rs on any lawful writer, against the same on a `Vec<u8>`.
use minidump2core.Prelude.{ℕ, ◌==◌}
use minidump2core.Writer.{Write, vec_write}
use minidump2core.Writer.Simulation.{
  IsLawful, Simulates, sim_write_all, sim_done, sim_seq, sim_bind, sim_if,
}
use minidump2core.Elf.{
  ElfHeader, ProgramHeader, write_elf_header, write_phdr64, write_phdr32, write_program_header,
  write_offsets,
}

ruleset sim_rules = (sim_write_all, sim_done, sim_seq, sim_bind, sim_if)

module _ {W : Type 0} (wr : Write W) (law : IsLawful wr) where
  sim_phdr64 :
      (ph : ProgramHeader)
      → Simulates wr law (write_phdr64 ⦃wr = wr⦄ ph) (write_phdr64 ⦃wr = vec_write⦄ ph)
  unfolding write_phdr64
  sim_phdr64 ph = search sim_rules depth 20

  sim_phdr32 :
      (ph : ProgramHeader)
      → Simulates wr law (write_phdr32 ⦃wr = wr⦄ ph) (write_phdr32 ⦃wr = vec_write⦄ ph)
  unfolding write_phdr32
  sim_phdr32 ph = search sim_rules depth 40

  pub sim_program_header :
      (ph : ProgramHeader) (class : ℕ)
      → Simulates wr law
          (write_program_header ⦃wr = wr⦄ ph class)
          (write_program_header ⦃wr = vec_write⦄ ph class)
  unfolding write_program_header
  sim_program_header ph class = sim_if wr law (class == 2) _ _ _ _ (sim_phdr64 ph) (sim_phdr32 ph)

  sim_offsets :
      (h : ElfHeader)
      → Simulates wr law (write_offsets ⦃wr = wr⦄ h) (write_offsets ⦃wr = vec_write⦄ h)
  sim_offsets h = search sim_rules depth 20

  pub sim_elf_header :
      (h : ElfHeader)
      → Simulates wr law (write_elf_header ⦃wr = wr⦄ h) (write_elf_header ⦃wr = vec_write⦄ h)
  unfolding write_elf_header
  sim_elf_header h = search (sim_rules, sim_offsets) depth 40
