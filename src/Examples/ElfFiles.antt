-- ===== src/Examples/ElfFiles.antt =====
-- What src/rust_minidump.rs reads from ELF files and from the debug stream, at small inputs.
use minidump2core.Prelude.{
  All, ℕ, ◌+◌, ◌*◌, ◌^◌, ◌<◌, ◌≤◌, ◌≡◌, inr, refl, ap, arith, true, Option, none, some, List, [],
  ◌∷◌, ◌++◌, length, replicate, drop, map, ◌>>?◌, if◌then◌else◌,
}
use mathlib.Core.Option
use minidump2core.Error.{ok}
use minidump2core.Bytes.{le_bytes, from_le_bytes, get_slice, eq_bytes, rposition}
use minidump2core.Model.Architecture.{arm, is_64bit, elf_class}
use minidump2core.Model.ProcessInfo.{basename, after_last_slash}
use minidump2core.RustMinidump.Streams.{
  Pread, value, bad_read, MinidumpModule, FileSystem, DebugHeader, RawLinkMap, Layouts, Formats,
}
use minidump2core.RustMinidump.SharedLib.{looks_like_shared_lib, shared_lib_loop, all_digits}
use minidump2core.RustMinidump.ElfFile.{
  elf_magic, load_segment, dynamic_segment, dynamic_addr_in, elf_class_of, is_elf, class_is_64,
  phdr_table, read_u16_le, read_u32_le, read_word, scan, vaddr_body, scan_vaddrs,
}
use minidump2core.RustMinidump.ElfFile.Headers.{entries_of, first_vaddr, last_vaddr}
use minidump2core.RustMinidump.ElfFile.Relocated.{relocated, dynamic_addr_in-relocated}
use minidump2core.RustMinidump.ElfFile.Runtime.{
  ExecutableDynamic, read_executable_dynamic, executable_dynamic_in, segment_body,
}
use minidump2core.BTreeMap.{BTreeMap, get}
use minidump2core.Model.Process.{DsoDebug}
use minidump2core.RustMinidump.Modules.{first_executable}
use minidump2core.RustMinidump.LinkMaps.{module_entry, synthesize_dso_debug}
use minidump2core.RustMinidump.LinkMaps.Synthesized.{IsLibrary, synthesize_dso_debug-agrees}
use minidump2core.RustMinidump.ElfFile.Auxv.{
  first_on_disk, build_synthetic_auxv, auxv_in, encode_auxv, auxv_bytes,
}
use minidump2core.RustMinidump.ElfFile.Auxv.Executable.{IsFirstOnDisk}
use minidump2core.RustMinidump.ElfFile.Auxv.Relocated.{IsAuxvOf, build_synthetic_auxv-IsAuxvOf}
use minidump2core.RustMinidump.LinkMaps.{
  link_map_entry, dso_debug_of, parse_dso_debug, read_md_ascii_string,
}
use minidump2core.RustMinidump.LinkMaps.Strings.{
  ReadsU32, md_string, shown, utf16_bytes, read_md_ascii_string-md_string,
}
use minidump2core.RustMinidump.LinkMaps.Entries.{
  parse_dso_debug-map, layouts_of, EntriesAt, Complete,
}

abbrev phdr : ℕ → ℕ → ℕ → ℕ → List ℕ
phdr p_type p_offset p_vaddr p_filesz =
    le_bytes 4 p_type
    ++ (le_bytes 4 p_offset
        ++ (le_bytes 4 p_vaddr ++ (le_bytes 4 0 ++ (le_bytes 4 p_filesz ++ replicate 12 0))))

-- A file of ELF32 that is linked at 0x8000, with its dynamic section at 0x8040.
abbrev elf_file : List ℕ
elf_file =
    elf_magic
    ++ ((1 ∷ replicate 19 0)
        ++ (le_bytes 4 0x8100
            ++ (le_bytes 4 52
                ++ (replicate 10 0
                    ++ (le_bytes 2 32
                        ++ (le_bytes 2 2
                            ++ (replicate 6 0
                                ++ (phdr 1 0 0x8000 116 ++ phdr 2 0x40 0x8040 8))))))))

dynamic_addr_in-relocated_example : dynamic_addr_in arm elf_file 0x18000 ≡ (
    entries_of arm elf_file >>? λ es.
    relocated 0x18000 (first_vaddr load_segment es) (last_vaddr dynamic_segment es))
dynamic_addr_in-relocated_example = dynamic_addr_in-relocated arm elf_file 0x18000

abbrev app_path : List ℕ
app_path = b'/' ∷ b'a' ∷ []

abbrev disk : FileSystem
disk = record {
  metadata_is_ok = λ path. eq_bytes path app_path;
  read_file = λ path. if eq_bytes path app_path then some elf_file else none;
}

app_dynamic :
    (exe : ExecutableDynamic) × (read_executable_dynamic disk arm app_path 0x18000 ≡ some exe)
unfolding read_executable_dynamic executable_dynamic_in elf_class_of is_elf class_is_64 is_64bit
    elf_class phdr_table read_u16_le read_u32_le read_word scan segment_body le_bytes from_le_bytes
    eq_bytes
app_dynamic = (_, refl)

present : disk.metadata_is_ok app_path ≡ true
unfolding eq_bytes
present = refl

abbrev app : MinidumpModule
app = record {
  base_of_image = 0x18000;
  size_of_image = 0x1000;
  name = app_path;
  codeview_info = none;
}

abbrev names : BTreeMap (List ℕ)
names = (0x18000, app_path) ∷ []

app_first : first_executable (app ∷ []) ≡ some app
unfolding first_executable looks_like_shared_lib shared_lib_loop rposition all_digits basename
    after_last_slash
app_first = refl

app_named : get 0x18000 names ≡ some app_path
unfolding get
app_named = refl

synthesize_dso_debug-agrees_example :
    (dso : DsoDebug) × (front : List MinidumpModule) × (back : List MinidumpModule)
    × (synthesize_dso_debug disk arm (app ∷ []) names ≡ some dso)
    × (app ∷ [] ≡ front ++ (app ∷ back))
    × All IsLibrary front
    × (dso.link_map
        ≡ map (module_entry disk arm names) front
          ++ (record { addr = 0x18000; ld = dso.dynamic; name = app_path }
              ∷ map (module_entry disk arm names) back))
    × (dso.dynamic ≡ app_dynamic.0.runtime_dynamic_addr)
    × (dso.dynamic_data ≡ app_dynamic.0.dynamic_bytes)
synthesize_dso_debug-agrees_example =
    synthesize_dso_debug-agrees disk arm (app ∷ []) names app app_dynamic.0 app_first app_named
      present app_dynamic.1

app_auxv : (out : List ℕ) × (build_synthetic_auxv disk arm (app ∷ []) ≡ some out)
unfolding build_synthetic_auxv first_on_disk looks_like_shared_lib shared_lib_loop rposition
    all_digits basename after_last_slash auxv_in encode_auxv auxv_bytes elf_class_of is_elf
    class_is_64 is_64bit elf_class phdr_table read_u16_le read_u32_le read_word scan vaddr_body
    scan_vaddrs le_bytes from_le_bytes eq_bytes
app_auxv = (_, refl)

build_synthetic_auxv-IsAuxvOf_example :
    (m : MinidumpModule) × (bytes : List ℕ) × IsFirstOnDisk disk (app ∷ []) m
    × (disk.read_file m.name ≡ some bytes)
    × IsAuxvOf arm bytes m.base_of_image app_auxv.0
build_synthetic_auxv-IsAuxvOf_example =
    build_synthetic_auxv-IsAuxvOf disk arm (app ∷ []) app_auxv.0 app_auxv.1

abbrev u32_at : List ℕ → ℕ → Option ℕ
u32_at bytes off = Option.map from_le_bytes (get_slice off 4 bytes)

abbrev pread_of : {A : Type 0} → Option A → Pread A
pread_of none = bad_read []
pread_of (some a) = value a

-- A debug header of six words and a link map entry of three.
abbrev words_layouts : Layouts
words_layouts = record {
  size_of_dso_debug = 24;
  size_of_link_map = 12;
  pread_dso_debug = λ bytes off. pread_of (
      u32_at bytes off >>? λ version. u32_at bytes (off + 4) >>? λ rva.
      u32_at bytes (off + 8) >>? λ count. some (record {
        version = version;
        map = rva;
        dso_count = count;
        brk = 0;
        ldbase = 0;
        dynamic = 0;
      }));
  pread_link_map = λ bytes off. pread_of (
      u32_at bytes off >>? λ addr. u32_at bytes (off + 4) >>? λ name.
      u32_at bytes (off + 8) >>? λ ld. some (record { addr = addr; name = name; ld = ld }));
}

abbrev formats : Formats
formats = record {
  layouts_32 = words_layouts;
  layouts_64 = words_layouts;
  pread_u32 = λ bytes off. pread_of (u32_at bytes off);
}

formats-ReadsU32 : ReadsU32 formats
formats-ReadsU32 = record {
  reads = λ bytes off word e. ap (λ (o : Option (List ℕ)). pread_of (Option.map from_le_bytes o)) e;
}

abbrev hi_text : List ℕ
hi_text = b'h' ∷ 0x3b1 ∷ []

text_fits : length (utf16_bytes hi_text) < 2 ^ 32
unfolding utf16_bytes
text_fits = omega arith

file_fits : length ((7 ∷ []) ++ (md_string hi_text ++ (9 ∷ []))) < 2 ^ 64
unfolding utf16_bytes md_string le_bytes
file_fits = omega arith

read_md_ascii_string-md_string_example :
    read_md_ascii_string formats ((7 ∷ []) ++ (md_string hi_text ++ (9 ∷ []))) 1
    ≡ some (shown hi_text)
read_md_ascii_string-md_string_example =
    read_md_ascii_string-md_string formats (7 ∷ []) hi_text (9 ∷ []) formats-ReadsU32
      ((omega arith, omega arith), ((omega arith, omega arith), tt)) text_fits file_fits

-- Two entries are counted, and the file ends inside the second.
abbrev debug_stream : List ℕ
debug_stream = le_bytes 4 1 ++ (le_bytes 4 4 ++ (le_bytes 4 2 ++ replicate 14 0))

abbrev dump_file : List ℕ
dump_file =
    replicate 4 0 ++ (le_bytes 4 0x8000 ++ (le_bytes 4 99 ++ (le_bytes 4 0x8040 ++ replicate 5 0)))

abbrev entry : RawLinkMap
entry = record { addr = 0x8000; name = 99; ld = 0x8040 }

abbrev debug_header : DebugHeader
debug_header = record { version = 1; map = 4; dso_count = 2; brk = 0; ldbase = 0; dynamic = 0 }

debug_whole :
    (length dump_file < 2 ^ 64)
    × ((layouts_of formats arm).size_of_dso_debug ≤ length debug_stream)
    × ((layouts_of formats arm).pread_dso_debug debug_stream 0 ≡ value debug_header)
    × EntriesAt formats (layouts_of formats arm) dump_file 4 0 (entry ∷ [])
    × (4 + 1 * (layouts_of formats arm).size_of_link_map ≤ length dump_file)
    × Complete formats (layouts_of formats arm) dump_file 4 0 1 2
unfolding is_64bit elf_class le_bytes from_le_bytes
debug_whole = (omega arith, omega arith, refl, (refl, tt), omega arith, inr (omega arith))

parse_dso_debug-map_example :
    parse_dso_debug formats arm debug_stream dump_file
    ≡ ok (
        dso_debug_of debug_header
          (drop (layouts_of formats arm).size_of_dso_debug debug_stream)
          (map (link_map_entry formats dump_file) (entry ∷ [])))
parse_dso_debug-map_example =
    parse_dso_debug-map formats arm debug_stream dump_file debug_header (entry ∷ []) debug_whole.0
      debug_whole.1 debug_whole.2 (omega arith) debug_whole.3 debug_whole.4 (omega arith)
      debug_whole.5
