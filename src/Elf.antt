-- ===== src/Elf.antt =====
-- src/elf.rs: the ELF header, the program headers and the note headers, in little-endian order.
pub mod Read
pub mod Header
pub mod Simulation
use minidump2core.Prelude.{
  ℕ, ◌+◌, ◌-◌, ◌%◌, ◌^◌, List, [], ◌∷◌, String, replicate, set, ltb, ◌==◌, if◌then◌else◌,
}
use minidump2core.Error.{Result, ok, err, integer_overflow}
use minidump2core.Bytes.{le_bytes, copy_front}
use minidump2core.Writer.{Write, Action, write_all, done, ◌>>=◌, ◌>>◌}

abbrev pub elfmag : List ℕ
elfmag = 0x7f ∷ b'E' ∷ b'L' ∷ b'F' ∷ []

abbrev pub elfdata2lsb : ℕ
elfdata2lsb = 1

abbrev pub ev_current : ℕ
ev_current = 1

abbrev pub et_core : ℕ
et_core = 4

abbrev pub pt_load : ℕ
pt_load = 1

abbrev pub pt_note : ℕ
pt_note = 4

abbrev pub nt_prstatus : ℕ
nt_prstatus = 1

abbrev pub nt_fpregset : ℕ
nt_fpregset = 2

abbrev pub nt_prpsinfo : ℕ
nt_prpsinfo = 3

abbrev pub nt_auxv : ℕ
nt_auxv = 6

abbrev pub nt_file : ℕ
nt_file = 0x46494c45

abbrev pub nt_prxfpreg : ℕ
nt_prxfpreg = 0x46e62b7f

abbrev pub core_name : List ℕ
core_name = b'C' ∷ b'O' ∷ b'R' ∷ b'E' ∷ 0 ∷ []

abbrev pub linux_name : List ℕ
linux_name = b'L' ∷ b'I' ∷ b'N' ∷ b'U' ∷ b'X' ∷ 0 ∷ []

pub record ElfHeader : Type 0 where
  pub class : ℕ
  pub machine : ℕ
  pub phnum : ℕ

-- `ElfHeader::size` and `ElfHeader::phdr_size`
unfoldable pub header_size : ElfHeader → ℕ
header_size h = if h.class == 2 then 64 else 52

unfoldable pub phdr_size : ElfHeader → ℕ
phdr_size h = if h.class == 2 then 56 else 32

-- `u32::try_from(v).unwrap_or(0)` and `u16::try_from(v).unwrap_or(0)`
abbrev pub u32_or_zero : ℕ → ℕ
u32_or_zero v = if ltb v (2 ^ 32) then v else 0

abbrev pub u16_or_zero : ℕ → ℕ
u16_or_zero v = if ltb v (2 ^ 16) then v else 0

abbrev pub e_ident : ElfHeader → List ℕ
unfolding copy_front
e_ident h =
    set (set (set (copy_front 4 (replicate 16 0) elfmag) 4 h.class) 5 elfdata2lsb) 6 ev_current

pub record ProgramHeader : Type 0 where
  pub p_type : ℕ
  pub p_flags : ℕ
  pub p_offset : ℕ
  pub p_vaddr : ℕ
  pub p_paddr : ℕ
  pub p_filesz : ℕ
  pub p_memsz : ℕ
  pub p_align : ℕ

unfoldable pub elf32_word : ℕ → String → Result ℕ
elf32_word value field = if ltb value (2 ^ 32) then ok value else err (integer_overflow field)

pub record NoteHeader : Type 0 where
  pub n_namesz : ℕ
  pub n_descsz : ℕ
  pub n_type : ℕ

module _ {W : Type 0} ⦃wr : Write W⦄ where
  -- `e_entry`, `e_phoff`, `e_shoff`
  abbrev write_offsets : ElfHeader → Action W
  write_offsets h =
      if h.class == 2
      then (do
        write_all (le_bytes 8 0)
        write_all (le_bytes 8 (header_size h))
        write_all (le_bytes 8 0))
      else (do
        write_all (le_bytes 4 0)
        write_all (le_bytes 4 (u32_or_zero (header_size h)))
        write_all (le_bytes 4 0))

  -- `ElfHeader::write`
  unfoldable pub write_elf_header : ElfHeader → Action W
  write_elf_header h = do
    write_all (e_ident h)
    write_all (le_bytes 2 et_core)
    write_all (le_bytes 2 h.machine)
    write_all (le_bytes 4 ev_current)
    write_offsets h
    write_all (le_bytes 4 0)
    write_all (le_bytes 2 (u16_or_zero (header_size h)))
    write_all (le_bytes 2 (u16_or_zero (phdr_size h)))
    write_all (le_bytes 2 h.phnum)
    write_all (le_bytes 2 (u16_or_zero (if h.class == 2 then 64 else 40)))
    write_all (le_bytes 2 0)
    write_all (le_bytes 2 0)
    done

  unfoldable pub write_phdr64 : ProgramHeader → Action W
  write_phdr64 ph = do
    write_all (le_bytes 4 ph.p_type)
    write_all (le_bytes 4 ph.p_flags)
    write_all (le_bytes 8 ph.p_offset)
    write_all (le_bytes 8 ph.p_vaddr)
    write_all (le_bytes 8 ph.p_paddr)
    write_all (le_bytes 8 ph.p_filesz)
    write_all (le_bytes 8 ph.p_memsz)
    write_all (le_bytes 8 ph.p_align)
    done

  unfoldable pub write_phdr32 : ProgramHeader → Action W
  write_phdr32 ph = do
    write_all (le_bytes 4 ph.p_type)
    offset ← elf32_word ph.p_offset "ELF32 p_offset"
    write_all (le_bytes 4 offset)
    vaddr ← elf32_word ph.p_vaddr "ELF32 p_vaddr"
    write_all (le_bytes 4 vaddr)
    paddr ← elf32_word ph.p_paddr "ELF32 p_paddr"
    write_all (le_bytes 4 paddr)
    filesz ← elf32_word ph.p_filesz "ELF32 p_filesz"
    write_all (le_bytes 4 filesz)
    memsz ← elf32_word ph.p_memsz "ELF32 p_memsz"
    write_all (le_bytes 4 memsz)
    write_all (le_bytes 4 ph.p_flags)
    align ← elf32_word ph.p_align "ELF32 p_align"
    write_all (le_bytes 4 align)
    done

  -- `ProgramHeader::write`
  unfoldable pub write_program_header : ProgramHeader → ℕ → Action W
  write_program_header ph class = if class == 2 then write_phdr64 ph else write_phdr32 ph

  -- `NoteHeader::write`
  unfoldable pub write_note_header : NoteHeader → Action W
  write_note_header h = do
    write_all (le_bytes 4 h.n_namesz)
    write_all (le_bytes 4 h.n_descsz)
    write_all (le_bytes 4 h.n_type)
    done

-- The number of bytes that `bytes` lacks to the next multiple of `align`.
unfoldable pub align_to : ℕ → ℕ → ℕ
align_to bytes align = if bytes % align == 0 then 0 else align - bytes % align
