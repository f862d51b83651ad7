-- ===== src/RustMinidump/LinkMaps/Synthesized.antt =====
-- The link map that `synthesize_dso_debug` makes, at the executable.
use minidump2core.Prelude.{
  ℕ, ◌≡◌, refl, ap, sym, ◌∙◌, arith, inl, inr, true, Bool-cases, Option, some, List, [], ◌∷◌, ◌++◌,
  map, All,
}
use mathlib.Core.Option
use minidump2core.BTreeMap.{BTreeMap, get}
use minidump2core.Model.Architecture.{Architecture}
use minidump2core.Model.ProcessInfo.{basename}
use minidump2core.Model.Process.{LinkMapEntry, DsoDebug}
use minidump2core.RustMinidump.Streams.{MinidumpModule, FileSystem}
use minidump2core.RustMinidump.SharedLib.{looks_like_shared_lib}
use minidump2core.RustMinidump.Modules.{first_executable}
use minidump2core.RustMinidump.ElfFile.Runtime.{
  ExecutableDynamic, read_executable_dynamic, elf_dynamic_runtime_addr,
}
use minidump2core.RustMinidump.ElfFile.Agreement.{read_executable_dynamic-agrees}
use minidump2core.RustMinidump.LinkMaps.{
  module_entry, no_dynamic, synthesized, synthesize_dso_debug,
}

abbrev pub IsLibrary : MinidumpModule → Type 0
IsLibrary m = looks_like_shared_lib (basename m.name) ≡ true

-- The executable stands behind libraries only.
first_executable-split :
    (modules : List MinidumpModule) (m : MinidumpModule)
    → first_executable modules ≡ some m
    → (front : List MinidumpModule) × (back : List MinidumpModule) × (modules ≡ front ++ (m ∷ back))
      × All IsLibrary front
unfolding first_executable
first_executable-split [] m e = absurd (ground arith)
first_executable-split (x ∷ xs) m e = elim (Bool-cases (looks_like_shared_lib (basename x.name))) [
  | inl t ↦
      let (front, back, split, libraries) =
        first_executable-split xs m (sym (rw (t, first_executable) refl) ∙ e) in
      (x ∷ front, back, ap (λ ms. x ∷ ms) split, (t, libraries))
  | inr f ↦
      let here : some x ≡ some m = sym (rw (f, first_executable) refl) ∙ e in
      ([], xs, ap (λ y. y ∷ xs) (Option.some-injective x m here), tt)
]

module_entry-named :
    (fs : FileSystem) (arch : Architecture) (signatures : BTreeMap (List ℕ)) (m : MinidumpModule)
    (ld : ℕ)
    → get m.base_of_image signatures ≡ some m.name
    → elf_dynamic_runtime_addr fs arch m.name m.base_of_image ≡ some ld
    → module_entry fs arch signatures m ≡ record { addr = m.base_of_image; ld = ld; name = m.name }
unfolding module_entry
module_entry-named fs arch signatures m ld named e = rw named (rw e refl)

map-append :
    (f : MinidumpModule → LinkMapEntry) (xs ys : List MinidumpModule)
    → map f (xs ++ ys) ≡ map f xs ++ map f ys
map-append f [] ys = refl
map-append f (x ∷ xs) ys = ap (λ t. f x ∷ t) (map-append f xs ys)

-- Where the first module that is no library is on disk with its dynamic section readable, and its name
-- is the one by which it is looked up, a link map is synthesized with one entry for each module in
-- order; the entry of that module stands behind those of libraries only, and has its base, its name and
-- as `l_ld` the address of the dynamic section whose bytes are kept to be patched.
pub synthesize_dso_debug-agrees :
    (fs : FileSystem) (arch : Architecture) (modules : List MinidumpModule)
    (signatures : BTreeMap (List ℕ)) (m : MinidumpModule) (exe : ExecutableDynamic)
    → first_executable modules ≡ some m
    → get m.base_of_image signatures ≡ some m.name
    → fs.metadata_is_ok m.name ≡ true
    → read_executable_dynamic fs arch m.name m.base_of_image ≡ some exe
    → (dso : DsoDebug) × (front : List MinidumpModule) × (back : List MinidumpModule)
      × (synthesize_dso_debug fs arch modules signatures ≡ some dso)
      × (modules ≡ front ++ (m ∷ back))
      × All IsLibrary front
      × (dso.link_map
          ≡ map (module_entry fs arch signatures) front
            ++ (record { addr = m.base_of_image; ld = dso.dynamic; name = m.name }
                ∷ map (module_entry fs arch signatures) back))
      × (dso.dynamic ≡ exe.runtime_dynamic_addr)
      × (dso.dynamic_data ≡ exe.dynamic_bytes)
unfolding synthesize_dso_debug
synthesize_dso_debug-agrees fs arch modules signatures m exe first named present read =
    let (front, back, split, libraries) = first_executable-split modules m first in
    let ld = read_executable_dynamic-agrees fs arch m.name m.base_of_image exe present read in
    (
      synthesized exe (map (module_entry fs arch signatures) modules),
      front,
      back,
      rw first (
          ap
            (λ (o : Option ExecutableDynamic). some (
              synthesized (Option.get_or o (no_dynamic m.base_of_image))
                (map (module_entry fs arch signatures) modules)))
            read),
      split,
      libraries,
      ap (map (module_entry fs arch signatures)) split
          ∙ map-append (module_entry fs arch signatures) front (m ∷ back)
          ∙ ap
              (λ (e : LinkMapEntry).
                map (module_entry fs arch signatures) front
                ++ (e ∷ map (module_entry fs arch signatures) back))
              (module_entry-named fs arch signatures m exe.runtime_dynamic_addr named ld),
      refl,
      refl,
    )
