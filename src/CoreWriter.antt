-- ===== src/CoreWriter.antt =====
-- `write_core` of src/core_writer.rs: the layout of the file and the order in which it is written.
pub mod Simulation
pub mod Image
pub mod Fits
pub mod Readable
pub mod Augmented
use minidump2core.Prelude.{
  ℕ, zero, suc, ◌+◌, ◌-◌, ◌*◌, ◌%◌, ◌^◌, Bool, true, false, not, Option, none, some, List, [], ◌∷◌,
  ◌++◌, length, replicate, ltb, ◌==◌, if◌then◌else◌,
}
use minidump2core.Error.{Result, ok, err, integer_overflow}
use minidump2core.BTreeMap.{BTreeMap, values}
use minidump2core.Writer.{Write, Action, write_all, done, ◌>>=◌, ◌>>◌, vec_write}
use minidump2core.Elf.{
  ElfHeader, ProgramHeader, header_size, phdr_size, write_elf_header, write_program_header, pt_load,
  pt_note,
}
use minidump2core.NoteSegment.{Process, build_note_segment}
use minidump2core.Model.Architecture.{Architecture, elf_class, elf_machine}
use minidump2core.Model.Mapping.{
  Mapping, MappingPermissions, default_page_size, is_default, to_elf_flags,
}

abbrev pub load_align : ℕ
load_align = default_page_size

unfoldable pub note_pad : ℕ → ℕ
note_pad pt_note_end =
    if pt_note_end % load_align == 0 then 0 else load_align - pt_note_end % load_align

unfoldable pub total_data : List Mapping → ℕ
total_data [] = 0
total_data (m ∷ ms) = length m.bytes + total_data ms

abbrev pub is_empty : Mapping → Bool
is_empty m = length m.bytes == 0

-- `p_flags`: a mapping with no permissions at all is taken as one with no information.
unfoldable pub load_flags : MappingPermissions → ℕ
load_flags permissions = if is_default permissions then 4 else to_elf_flags permissions

-- `end_address - start_address` on `u64`, which wraps in a release build.
abbrev pub memory_size : Mapping → ℕ
memory_size m = (m.end_address + 2 ^ 64 - m.start_address) % 2 ^ 64

unfoldable pub load_phdr : Mapping → ℕ → ℕ → ProgramHeader
unfolding load_flags
load_phdr m load_offset empty_load_offset = record {
  p_type = pt_load;
  p_flags = load_flags m.permissions;
  p_offset = if is_empty m then empty_load_offset else load_offset;
  p_filesz = if is_empty m then 0 else length m.bytes;
  p_memsz = memory_size m;
  p_paddr = 0;
  p_vaddr = m.start_address;
  p_align = load_align;
}

-- `load_offset` behind a mapping.
abbrev pub next_offset : Mapping → ℕ → ℕ
next_offset m load_offset = if is_empty m then load_offset else load_offset + length m.bytes

unfoldable pub note_phdr : ℕ → ℕ → ProgramHeader
note_phdr pt_note_offset pt_note_filesz = record {
  p_type = pt_note;
  p_flags = 0;
  p_offset = pt_note_offset;
  p_filesz = pt_note_filesz;
  p_memsz = 0;
  p_paddr = 0;
  p_vaddr = 0;
  p_align = 0;
}

-- `u16::try_from(phnum)`
abbrev pub checked_phnum : ℕ → Result ℕ
checked_phnum phnum =
    if ltb phnum (2 ^ 16) then ok phnum else err (integer_overflow "phnum exceeds u16")

abbrev pub core_header : Architecture → ℕ → ElfHeader
core_header arch phnum = record {
  class = elf_class arch;
  machine = elf_machine arch;
  phnum = phnum;
}

module _ {W : Type 0} ⦃wr : Write W⦄ where
  -- The loop that writes the PT_LOAD headers.
  unfoldable pub write_load_phdrs : List Mapping → ℕ → ℕ → ℕ → Action W
  write_load_phdrs [] load_offset empty_load_offset class = done
  write_load_phdrs (m ∷ ms) load_offset empty_load_offset class = do
    write_program_header (load_phdr m load_offset empty_load_offset) class
    write_load_phdrs ms (next_offset m load_offset) empty_load_offset class

  -- The loop that writes the captured bytes.
  unfoldable pub write_load_data : List Mapping → Action W
  write_load_data [] = done
  write_load_data (m ∷ ms) = do if is_empty m then done else write_all m.bytes; write_load_data ms

  -- What `write_core` does when the notes are built and the headers are counted.
  unfoldable pub write_layout : Process → List ℕ → ℕ → Action W
  write_layout p note_bytes phnum_u16 =
      let mappings = values p.mappings in
      let phnum = 1 + length p.mappings in
      let header = core_header p.architecture phnum_u16 in
      let pt_note_offset = header_size header + phdr_size header * phnum in
      let pt_note_end = pt_note_offset + length note_bytes in
      let pad = note_pad pt_note_end in
      let load_offset = pt_note_end + pad in
      let empty_load_offset = load_offset + total_data mappings in
      do
        write_elf_header header
        write_program_header (note_phdr pt_note_offset (length note_bytes)) header.class
        write_load_phdrs mappings load_offset empty_load_offset header.class
        write_all note_bytes
        if ltb 0 pad then write_all (replicate pad 0) else done
        write_load_data mappings
        done

  unfoldable pub write_core : Process → Action W
  write_core p = do
    note_bytes ← build_note_segment p
    phnum_u16 ← checked_phnum (1 + length p.mappings)
    write_layout p note_bytes phnum_u16
