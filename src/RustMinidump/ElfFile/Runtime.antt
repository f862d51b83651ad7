-- ===== src/RustMinidump/ElfFile/Runtime.antt =====
-- `elf_dynamic_runtime_addr` and `read_executable_dynamic` of src/rust_minidump.rs.
use minidump2core.Prelude.{
  ℕ, ◌+◌, Bool, Option, none, some, List, [], ◌∷◌, ◌++◌, length, leb, ◌==◌, if◌then◌else◌, ◌>>?◌,
}
use minidump2core.Bytes.{slice}
use minidump2core.Model.Align.{checked_add}
use minidump2core.Model.Architecture.{Architecture}
use minidump2core.Model.ProcessInfo.{basename, slash}
use minidump2core.RustMinidump.Streams.{FileSystem}
use minidump2core.RustMinidump.ElfFile.{
  checked_sub, ensure, read_u32_le, read_word, phdr_table, elf_class_of, scan, get_or_insert,
  load_segment, dynamic_segment, dynamic_addr_in,
}

-- `SYSTEM_LIB_DIRS`
abbrev pub system_lib_dirs : List (List ℕ)
system_lib_dirs =
    (0x2f
      ∷ (0x75
          ∷ (0x73
              ∷ (0x72
                  ∷ (0x2f
                      ∷ (0x6c
                          ∷ (0x69
                              ∷ (0x62
                                  ∷ (0x2f
                                      ∷ (0x78
                                          ∷ (0x38
                                              ∷ (0x36
                                                  ∷ (0x5f
                                                      ∷ (0x36
                                                          ∷ (0x34
                                                            ∷ (0x2d
                                                            ∷ (0x6c
                                                            ∷ (0x69
                                                            ∷ (0x6e
                                                            ∷ (0x75
                                                            ∷ (0x78
                                                            ∷ (0x2d
                                                            ∷ (0x67
                                                            ∷ (0x6e
                                                            ∷ (0x75 ∷ [])))))))))))))))))))))))))
    ∷ (0x2f ∷ (0x75 ∷ (0x73 ∷ (0x72 ∷ (0x2f ∷ (0x6c ∷ (0x69 ∷ (0x62 ∷ []))))))))
    ∷ (0x2f
        ∷ (0x6c
            ∷ (0x69
                ∷ (0x62
                    ∷ (0x2f
                        ∷ (0x78
                            ∷ (0x38
                                ∷ (0x36
                                    ∷ (0x5f
                                        ∷ (0x36
                                            ∷ (0x34
                                                ∷ (0x2d
                                                    ∷ (0x6c
                                                        ∷ (0x69
                                                            ∷ (0x6e
                                                            ∷ (0x75
                                                            ∷ (0x78
                                                            ∷ (0x2d
                                                            ∷ (0x67
                                                            ∷ (0x6e
                                                            ∷ (0x75 ∷ [])))))))))))))))))))))
    ∷ (0x2f ∷ (0x6c ∷ (0x69 ∷ (0x62 ∷ []))))
    ∷ []

-- The first directory with a readable file of the name.
unfoldable pub search_dirs : FileSystem → List ℕ → List (List ℕ) → Option (List ℕ)
search_dirs fs base [] = none
search_dirs fs base (dir ∷ dirs) = elim (fs.read_file (dir ++ (slash ∷ base))) [
  | some bytes ↦ some bytes
  | none ↦ search_dirs fs base dirs
]

unfoldable pub locate : FileSystem → List ℕ → Option (List ℕ)
unfolding search_dirs
locate fs path =
    if fs.metadata_is_ok path
    then fs.read_file path
    else search_dirs fs (basename path) system_lib_dirs

unfoldable pub elf_dynamic_runtime_addr : FileSystem → Architecture → List ℕ → ℕ → Option ℕ
unfolding locate
elf_dynamic_runtime_addr fs arch path load_base =
    locate fs path >>? λ bytes. dynamic_addr_in arch bytes load_base

pub record Segment : Type 0 where
  pub p_offset : ℕ
  pub p_vaddr : ℕ
  pub p_filesz : ℕ

pub record DynamicScan : Type 0 where
  pub first_load : Option ℕ
  pub dyn_info : Option Segment

abbrev pub note_segment : ℕ → Segment → DynamicScan → DynamicScan
note_segment p_type segment s =
    if p_type == load_segment
    then record s { first_load = get_or_insert s.first_load segment.p_vaddr }
    else (if p_type == dynamic_segment then record s { dyn_info = some segment } else s)

-- The body of the loop over the program headers.
unfoldable pub segment_body : Bool → List ℕ → ℕ → DynamicScan → Option DynamicScan
segment_body is_64 bytes o s = read_u32_le bytes o >>? λ p_type.
    read_word is_64 bytes (o + 8) (o + 4) >>? λ p_offset.
    read_word is_64 bytes (o + 16) (o + 8) >>? λ p_vaddr.
    read_word is_64 bytes (o + 32) (o + 16) >>? λ p_filesz.
    some (
      note_segment p_type (record { p_offset = p_offset; p_vaddr = p_vaddr; p_filesz = p_filesz })
        s)

abbrev pub no_segments : DynamicScan
no_segments = record { first_load = none; dyn_info = none }

pub record ExecutableDynamic : Type 0 where
  pub dynamic_bytes : List ℕ
  pub runtime_dynamic_addr : ℕ
  pub load_bias : ℕ

-- What `read_executable_dynamic` does with the bytes of the file.
unfoldable pub executable_dynamic_in : Architecture → List ℕ → ℕ → Option ExecutableDynamic
unfolding segment_body
executable_dynamic_in arch bytes load_base = elf_class_of arch bytes >>? λ is_64.
    phdr_table is_64 bytes >>? λ table.
    scan (segment_body is_64 bytes) table table.e_phnum 0 no_segments >>? λ s.
    s.first_load >>? λ first_load_vaddr. s.dyn_info >>? λ segment.
    checked_sub load_base first_load_vaddr >>? λ load_bias.
    checked_add segment.p_vaddr load_bias >>? λ runtime_dyn.
    checked_add segment.p_offset segment.p_filesz >>? λ end_offset.
    ensure (leb end_offset (length bytes)) >>? λ inside. some (record {
      dynamic_bytes = slice segment.p_offset segment.p_filesz bytes;
      runtime_dynamic_addr = runtime_dyn;
      load_bias = load_bias;
    })

unfoldable pub read_executable_dynamic :
    FileSystem → Architecture → List ℕ → ℕ → Option ExecutableDynamic
unfolding executable_dynamic_in
read_executable_dynamic fs arch exe_path load_base =
    fs.read_file exe_path >>? λ bytes. executable_dynamic_in arch bytes load_base
