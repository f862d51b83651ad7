-- ===== src/RustMinidump/ElfFile/Auxv.antt =====
-- `build_synthetic_auxv` of src/rust_minidump.rs.
pub mod Entries
pub mod Executable
pub mod Relocated
use minidump2core.Prelude.{
  ℕ, ◌^◌, Bool, true, false, Option, none, some, List, [], ◌∷◌, ◌++◌, ltb, if◌then◌else◌, ◌>>?◌,
}
use mathlib.Core.Option
use minidump2core.Bytes.{le_bytes}
use minidump2core.Model.Align.{checked_add}
use minidump2core.Model.Architecture.{Architecture}
use minidump2core.Model.ProcessInfo.{basename}
use minidump2core.RustMinidump.Streams.{FileSystem, MinidumpModule}
use minidump2core.RustMinidump.SharedLib.{looks_like_shared_lib}
use minidump2core.RustMinidump.ElfFile.{
  checked_sub, ensure, read_word, phdr_table, elf_class_of, scan_vaddrs, phdr_segment,
}

-- The first module that is no library and whose file is there.
unfoldable pub first_on_disk : FileSystem → List MinidumpModule → Option MinidumpModule
first_on_disk fs [] = none
first_on_disk fs (m ∷ ms) =
    if looks_like_shared_lib (basename m.name)
    then first_on_disk fs ms
    else (if fs.metadata_is_ok m.name then some m else first_on_disk fs ms)

abbrev pub auxv_pair : ℕ → ℕ → ℕ → List ℕ
auxv_pair word typ val = le_bytes word typ ++ le_bytes word val

abbrev pub at_phdr_type : ℕ
at_phdr_type = 3

abbrev pub at_entry_type : ℕ
at_entry_type = 9

unfoldable pub auxv_bytes : ℕ → ℕ → ℕ → List ℕ
auxv_bytes word at_phdr at_entry =
    auxv_pair word at_phdr_type at_phdr
    ++ (auxv_pair word at_entry_type at_entry ++ auxv_pair word 0 0)

-- Where the class has 32 bits, both values must fit.
unfoldable pub encode_auxv : Bool → ℕ → ℕ → Option (List ℕ)
unfolding auxv_bytes
encode_auxv true at_phdr at_entry = some (auxv_bytes 8 at_phdr at_entry)
encode_auxv false at_phdr at_entry = ensure (ltb at_phdr (2 ^ 32)) >>? λ phdr_fits.
    ensure (ltb at_entry (2 ^ 32)) >>? λ entry_fits. some (auxv_bytes 4 at_phdr at_entry)

-- What it does with the bytes of the file.
unfoldable pub auxv_in : Architecture → List ℕ → ℕ → Option (List ℕ)
unfolding encode_auxv
auxv_in arch bytes exe_base = elf_class_of arch bytes >>? λ is_64.
    read_word is_64 bytes 24 24 >>? λ e_entry. phdr_table is_64 bytes >>? λ table.
    scan_vaddrs phdr_segment is_64 bytes table >>? λ s. s.first_load >>? λ first_load_vaddr.
    checked_sub exe_base first_load_vaddr >>? λ load_bias.
    checked_add load_bias (Option.get_or s.wanted table.e_phoff) >>? λ at_phdr.
    checked_add load_bias e_entry >>? λ at_entry. encode_auxv is_64 at_phdr at_entry

unfoldable pub build_synthetic_auxv :
    FileSystem → Architecture → List MinidumpModule → Option (List ℕ)
unfolding first_on_disk auxv_in
build_synthetic_auxv fs arch modules = first_on_disk fs modules >>? λ m.
    fs.read_file m.name >>? λ bytes. auxv_in arch bytes m.base_of_image
