-- ===== src/RustMinidump/Modules.antt =====
-- `ingest_modules`, `signature_for` and `guid_from_module` of src/rust_minidump.rs.
pub mod Table
pub mod Kept
pub mod Added
pub mod Names
use minidump2core.Prelude.{
  ℕ, ◌+◌, ◌%◌, ◌^◌, Bool, Option, none, some, List, [], ◌∷◌, ◌++◌, take, drop, ltb, ◌==◌,
  if◌then◌else◌, concat, map,
}
use mathlib.Core.Option
use minidump2core.Error.{Result, ok, err, panic}
use minidump2core.Bytes.{eq_bytes}
use minidump2core.BTreeMap.{insert}
use minidump2core.Text.Hex.{upper_hex}
use minidump2core.Model.Mapping.{Mapping, new_mapping, read_only, with_file}
use minidump2core.Model.ProcessInfo.{basename, slash}
use minidump2core.Model.Process.{insert_mapping_if_absent, apply_module_name_fallback}
use minidump2core.NoteSegment.{Process}
use minidump2core.RustMinidump.Streams.{MinidumpModule, CodeView, pdb70, other_code_view, Guid}
use minidump2core.RustMinidump.SharedLib.{looks_like_shared_lib}

-- `verbose` only prints.
pub record ConvertOptions : Type 0 where
  pub mangle_sonames : Bool
  pub so_base_dir : Option (List ℕ)

abbrev pub hyphen : ℕ
hyphen = 0x2d

unfoldable pub guid_text : Guid → List ℕ
guid_text g =
    upper_hex 8 g.data1
    ++ (hyphen
        ∷ (upper_hex 4 g.data2
            ++ (hyphen
                ∷ (upper_hex 4 g.data3
                    ++ (hyphen
                        ∷ (concat (map (upper_hex 2) (take 2 g.data4))
                            ++ (hyphen ∷ concat (map (upper_hex 2) (drop 2 g.data4)))))))))

abbrev pub guid_of : Option CodeView → Option (List ℕ)
guid_of none = none
guid_of (some (pdb70 g)) = some (guid_text g)
guid_of (some other_code_view) = none

unfoldable pub guid_from_module : MinidumpModule → Option (List ℕ)
unfolding guid_text
guid_from_module m = guid_of m.codeview_info

-- `"00000000-0000-0000-0000-000000000000"`
abbrev pub zero_guid : List ℕ
zero_guid =
    0x30
    ∷ (0x30
        ∷ (0x30
            ∷ (0x30
                ∷ (0x30
                    ∷ (0x30
                        ∷ (0x30
                            ∷ (0x30
                                ∷ (0x2d
                                    ∷ (0x30
                                        ∷ (0x30
                                            ∷ (0x30
                                                ∷ (0x30
                                                    ∷ (0x2d
                                                        ∷ (0x30
                                                            ∷ (0x30
                                                            ∷ (0x30
                                                            ∷ (0x30
                                                            ∷ (0x2d
                                                            ∷ (0x30
                                                            ∷ (0x30
                                                            ∷ (0x30
                                                            ∷ (0x30
                                                            ∷ (0x2d
                                                            ∷ (0x30
                                                            ∷ (0x30
                                                            ∷ (0x30
                                                            ∷ (0x30
                                                            ∷ (0x30
                                                            ∷ (0x30
                                                            ∷ (0x30
                                                            ∷ (0x30
                                                            ∷ (0x30
                                                            ∷ (0x30
                                                            ∷ (0x30
                                                            ∷ (0x30
                                                            ∷ [])))))))))))))))))))))))))))))))))))

-- `"/var/lib/breakpad/"`
abbrev pub breakpad_dir : List ℕ
breakpad_dir =
    0x2f
    ∷ (0x76
        ∷ (0x61
            ∷ (0x72
                ∷ (0x2f
                    ∷ (0x6c
                        ∷ (0x69
                            ∷ (0x62
                                ∷ (0x2f
                                    ∷ (0x62
                                        ∷ (0x72
                                            ∷ (0x65
                                                ∷ (0x61
                                                    ∷ (0x6b
                                                        ∷ (0x70
                                                            ∷ (0x61
                                                            ∷ (0x64 ∷ (0x2f ∷ [])))))))))))))))))

-- `trim_end_matches('/')`
unfoldable pub trim_end_slashes : List ℕ → List ℕ
trim_end_slashes [] = []
trim_end_slashes (c ∷ cs) = elim (trim_end_slashes cs) [
  | [] ↦ if c == slash then [] else c ∷ []
  | d ∷ ds ↦ c ∷ (d ∷ ds)
]

abbrev pub mangled : List ℕ → List ℕ → List ℕ → List ℕ
mangled guid name base =
    if eq_bytes guid zero_guid then name else breakpad_dir ++ (guid ++ (hyphen ∷ (base ++ base)))

abbrev pub under_dir : Bool → Option (List ℕ) → MinidumpModule → List ℕ
under_dir mangle (some dir) m = trim_end_slashes dir ++ (slash ∷ basename m.name)
under_dir mangle none m =
    if mangle
    then mangled (Option.get_or (guid_from_module m) zero_guid) m.name (basename m.name)
    else m.name

unfoldable pub signature_for : MinidumpModule → ConvertOptions → List ℕ
unfolding guid_from_module trim_end_slashes
signature_for m options = under_dir options.mangle_sonames options.so_base_dir m

-- `if let Ok(mapping)`
abbrev pub insert_if_ok : Result Mapping → List ℕ → Process → Process
insert_if_ok (ok mapping) name p = insert_mapping_if_absent (with_file mapping name 0) p
insert_if_ok (err error) name p = p
insert_if_ok (panic message) name p = p

unfoldable pub add_signature : ℕ → List ℕ → Process → Process
add_signature base name p = record p { signatures = insert base name p.signatures }

-- The mapping of a module, where it has a size; `base + size` wraps.
unfoldable pub map_module : MinidumpModule → List ℕ → Process → Process
map_module m name p =
    if ltb 0 m.size_of_image
    then insert_if_ok
        (new_mapping m.base_of_image ((m.base_of_image + m.size_of_image) % 2 ^ 64) read_only) name
        p
    else p

-- One round of the first loop.
unfoldable pub ingest_module : ConvertOptions → MinidumpModule → Process → Process
unfolding signature_for map_module add_signature
ingest_module options m p =
    add_signature m.base_of_image (signature_for m options)
      (map_module m (signature_for m options) p)

unfoldable pub ingest_each : ConvertOptions → List MinidumpModule → Process → Process
unfolding ingest_module
ingest_each options [] p = p
ingest_each options (m ∷ ms) p = ingest_each options ms (ingest_module options m p)

-- The first module whose name is not that of a library.
unfoldable pub first_executable : List MinidumpModule → Option MinidumpModule
first_executable [] = none
first_executable (m ∷ ms) =
    if looks_like_shared_lib (basename m.name) then first_executable ms else some m

abbrev pub name_from : Option MinidumpModule → Process → Process
name_from none p = p
name_from (some m) p = apply_module_name_fallback m.name p

unfoldable pub ingest_modules : Process → List MinidumpModule → ConvertOptions → Process
unfolding ingest_each first_executable
ingest_modules p modules options =
    name_from (first_executable modules) (ingest_each options modules p)
