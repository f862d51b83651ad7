-- ===== src/CoreWriter/Fits.antt =====
-- The program headers that `write_core` of src/core_writer.rs makes fit the widths of their fields.
use minidump2core.Prelude.{ℕ, ◌+◌, ◌^◌, ◌<◌, ◌≤◌, arith, List, [], ◌∷◌, length, All}
use minidump2core.Bytes.{IsU16}
use minidump2core.Writer.{vec_write}
use minidump2core.Elf.Read.{Fits, addr_size}
use minidump2core.Model.Architecture.{Architecture, elf_class, elf_machine}
use minidump2core.Model.Mapping.{Mapping, MappingPermissions, is_default, to_elf_flags}
use minidump2core.CoreWriter.{load_phdr, load_flags, next_offset, note_phdr, total_data}
use minidump2core.CoreWriter.Image.{load_phdrs}
use minidump2core.CoreWriter.Image.Loads.{IsRange}

-- The mapping ends below a bound.
abbrev pub EndsBelow : ℕ → Mapping → Type 0
EndsBelow bound m = m.end_address < bound

load_flags-lt : (q : MappingPermissions) → load_flags q < 2 ^ 32
unfolding load_flags is_default to_elf_flags
load_flags-lt q = ground arith

load_phdr-Fits :
    (word : ℕ) (m : Mapping) (o z : ℕ)
    → 4096 < 256 ^ word
    → IsRange m
    → EndsBelow (256 ^ word) m
    → o + length m.bytes ≤ z
    → z < 256 ^ word
    → Fits word (load_phdr m o z)
unfolding load_phdr
load_phdr-Fits word m o z hw r e h k = record {
  type_fits = omega arith;
  flags_fit = load_flags-lt m.permissions;
  offset_fits = ground arith;
  vaddr_fits = omega arith;
  paddr_fits = omega arith;
  filesz_fits = ground arith;
  memsz_fits = omega arith;
  align_fits = hw;
}

pub load_phdrs-Fits :
    (word : ℕ) (ms : List Mapping) (o z : ℕ)
    → 4096 < 256 ^ word
    → All IsRange ms
    → All (EndsBelow (256 ^ word)) ms
    → o + total_data ms ≤ z
    → z < 256 ^ word
    → All (Fits word) (load_phdrs ms o z)
unfolding load_phdrs total_data
load_phdrs-Fits word [] o z hw r e h k = tt
load_phdrs-Fits word (m ∷ ms) o z hw r e h k = (
  load_phdr-Fits word m o z hw r.0 e.0 (omega arith) k,
  load_phdrs-Fits word ms (next_offset m o) z hw r.1 e.1 (ground arith) k,
)

pub note_phdr-Fits :
    (word offset size : ℕ)
    → offset < 256 ^ word
    → size < 256 ^ word
    → 4096 < 256 ^ word
    → Fits word (note_phdr offset size)
unfolding note_phdr
note_phdr-Fits word offset size h k w = omega arith

pub word_pos : (arch : Architecture) → 4096 < 256 ^ addr_size (elf_class arch)
unfolding elf_class
word_pos arch = ground arith

pub machine-lt : (arch : Architecture) → IsU16 (elf_machine arch)
unfolding elf_machine
machine-lt arch = ground arith
