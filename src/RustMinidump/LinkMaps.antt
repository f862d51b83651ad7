-- ===== src/RustMinidump/LinkMaps.antt =====
-- `parse_dso_debug`, `read_link_map_64`, `read_link_map_32`, `read_md_ascii_string` and
-- `synthesize_dso_debug` of src/rust_minidump.rs.
pub mod Strings
pub mod Entries
pub mod Synthesized
use minidump2core.Prelude.{
  ℕ, zero, suc, ◌+◌, ◌*◌, Option, none, some, List, [], ◌∷◌, drop, length, ltb, ◌==◌, if◌then◌else◌,
  ◌>>?◌, map,
}
use mathlib.Core.Option
use minidump2core.Error.{Result, ok, err, ◌>>=◌, serialize}
use minidump2core.Bytes.{slice}
use minidump2core.BTreeMap.{BTreeMap, get}
use minidump2core.Model.Align.{checked_add}
use minidump2core.Model.Architecture.{Architecture, is_64bit}
use minidump2core.Model.Process.{LinkMapEntry, DsoDebug, no_dso_debug}
use minidump2core.RustMinidump.Streams.{
  MinidumpModule, FileSystem, DebugHeader, RawLinkMap, Layouts, Formats, Pread, value, bad_read,
}
use minidump2core.RustMinidump.Modules.{first_executable}
use minidump2core.RustMinidump.ElfFile.Runtime.{
  elf_dynamic_runtime_addr, read_executable_dynamic, ExecutableDynamic,
}

-- `?` on what `pread_with` returns, and `.ok()`.
abbrev pub or_serialize : {A : Type 0} → Pread A → Result A
or_serialize (value a) = ok a
or_serialize (bad_read text) = err (serialize text)

abbrev pub pread_ok : {A : Type 0} → Pread A → Option A
pread_ok (value a) = some a
pread_ok (bad_read text) = none

-- The pairs of `chunks_exact(2)` as characters, up to a NUL; `?` stands for what is not ASCII.
unfoldable pub ascii_units : List ℕ → List ℕ
ascii_units [] = []
ascii_units (a ∷ []) = []
ascii_units (a ∷ (b ∷ rest)) =
    let later = ascii_units rest in
    if a + 256 * b == 0 then [] else (if ltb (a + 256 * b) 128 then a + 256 * b else b'?') ∷ later

unfoldable pub read_md_ascii_string : Formats → List ℕ → ℕ → Option (List ℕ)
unfolding ascii_units
read_md_ascii_string formats full_file rva =
    pread_ok (formats.pread_u32 full_file rva) >>? λ byte_len. checked_add rva 4 >>? λ start.
    checked_add start byte_len >>? λ end_offset.
    if ltb (length full_file) end_offset
    then none
    else some (ascii_units (slice start byte_len full_file))

-- The string's default is empty.
abbrev pub link_map_entry : Formats → List ℕ → RawLinkMap → LinkMapEntry
link_map_entry formats full_file entry = record {
  addr = entry.addr;
  ld = entry.ld;
  name = Option.get_or (read_md_ascii_string formats full_file entry.name) [];
}

-- `for i in 0..dso_count`, from `i`: it stops at the first entry that is not whole.
unfoldable pub link_map_loop : Formats → Layouts → List ℕ → ℕ → ℕ → ℕ → Result (List LinkMapEntry)
unfolding read_md_ascii_string
link_map_loop formats layouts full_file map_rva zero i = ok []
link_map_loop formats layouts full_file map_rva (suc n) i =
    elim (checked_add map_rva (i * layouts.size_of_link_map)) [
      | none ↦ ok []
      | some off ↦
          if ltb (length full_file) (off + layouts.size_of_link_map)
          then ok []
          else (or_serialize (layouts.pread_link_map full_file off) >>= λ entry.
              link_map_loop formats layouts full_file map_rva n (suc i) >>= λ later.
              ok (link_map_entry formats full_file entry ∷ later))
    ]

abbrev pub invalid_md_rva : ℕ
invalid_md_rva = 0xffffffff

unfoldable pub read_link_map : Formats → Layouts → List ℕ → ℕ → ℕ → Result (List LinkMapEntry)
unfolding link_map_loop
read_link_map formats layouts full_file map_rva dso_count =
    if map_rva == invalid_md_rva
    then ok []
    else link_map_loop formats layouts full_file map_rva dso_count 0

unfoldable pub read_link_map_64 : Formats → List ℕ → ℕ → ℕ → Result (List LinkMapEntry)
unfolding read_link_map
read_link_map_64 formats = read_link_map formats formats.layouts_64

unfoldable pub read_link_map_32 : Formats → List ℕ → ℕ → ℕ → Result (List LinkMapEntry)
unfolding read_link_map
read_link_map_32 formats = read_link_map formats formats.layouts_32

abbrev pub dso_debug_of : DebugHeader → List ℕ → List LinkMapEntry → DsoDebug
dso_debug_of header dynamic_data link_map = record {
  version = header.version;
  brk = header.brk;
  ldbase = header.ldbase;
  dynamic = header.dynamic;
  link_map = link_map;
  dynamic_data = dynamic_data;
}

-- One of the two branches, by the layouts and the reader of the link map.
abbrev pub parse_with :
    Formats
    → Layouts
    → (List ℕ → ℕ → ℕ → Result (List LinkMapEntry))
    → List ℕ
    → List ℕ
    → Result DsoDebug
parse_with formats layouts read_entries bytes full_file =
    if ltb (length bytes) layouts.size_of_dso_debug
    then ok no_dso_debug
    else (or_serialize (layouts.pread_dso_debug bytes 0) >>= λ header.
        read_entries full_file header.map header.dso_count >>= λ link_map.
        ok (dso_debug_of header (drop layouts.size_of_dso_debug bytes) link_map))

unfoldable pub parse_dso_debug : Formats → Architecture → List ℕ → List ℕ → Result DsoDebug
unfolding read_link_map_64 read_link_map_32
parse_dso_debug formats arch bytes full_file =
    if is_64bit arch
    then parse_with formats formats.layouts_64 (read_link_map_64 formats) bytes full_file
    else parse_with formats formats.layouts_32 (read_link_map_32 formats) bytes full_file

-- An entry of the synthesized link map, under the name by which the module is looked up.
unfoldable pub module_entry :
    FileSystem → Architecture → BTreeMap (List ℕ) → MinidumpModule → LinkMapEntry
module_entry fs arch signatures m =
    let name = Option.get_or (get m.base_of_image signatures) m.name in
    record {
      addr = m.base_of_image;
      ld = Option.get_or (elf_dynamic_runtime_addr fs arch name m.base_of_image) 0;
      name = name;
    }

abbrev pub no_dynamic : ℕ → ExecutableDynamic
no_dynamic exe_base = record { dynamic_bytes = []; runtime_dynamic_addr = 0; load_bias = exe_base }

abbrev pub synthesized : ExecutableDynamic → List LinkMapEntry → DsoDebug
synthesized exe link_map = record {
  version = 1;
  brk = 0;
  ldbase = exe.load_bias;
  dynamic = exe.runtime_dynamic_addr;
  link_map = link_map;
  dynamic_data = exe.dynamic_bytes;
}

unfoldable pub synthesize_dso_debug :
    FileSystem → Architecture → List MinidumpModule → BTreeMap (List ℕ) → Option DsoDebug
unfolding module_entry
synthesize_dso_debug fs arch modules signatures = first_executable modules >>? λ exe. some (
    synthesized
      (Option.get_or (read_executable_dynamic fs arch exe.name exe.base_of_image)
        (no_dynamic exe.base_of_image))
      (map (module_entry fs arch signatures) modules))
