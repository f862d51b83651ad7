-- ===== src/RustMinidump/ElfFile/Auxv/Executable.antt =====
-- Which module `build_synthetic_auxv` takes for the executable: its own loop over the modules, with
-- `basename` and `looks_like_shared_lib`.
use minidump2core.Prelude.{
  ◌≡◌, refl, ap, ◌∙◌, inl, inr, arith, true, false, Bool-cases, ℕ, some, Option-cases, List, [],
  ◌∷◌, ◌++◌, All, ◌==◌, ◌⊎◌,
}
use mathlib.Core.Path.{subst}
use minidump2core.Model.ProcessInfo.{after_last_slash, basename, slash}
use minidump2core.RustMinidump.Streams.{FileSystem, MinidumpModule}
use minidump2core.RustMinidump.SharedLib.{looks_like_shared_lib}
use minidump2core.RustMinidump.SharedLib.Accepts.{IsSharedLibName, looks_like_shared_lib_lem}
use minidump2core.RustMinidump.Modules.Names.{
  NotSlash, no_slash, after_last_slash-none, after_last_slash-some, after_last_slash-append,
}
use minidump2core.RustMinidump.ElfFile.Auxv.{first_on_disk}

-- The part of a path behind its last slash.
pub data IsBaseName (path name : List ℕ) : Type 0 where
  whole : All NotSlash path → path ≡ name → IsBaseName path name
  behind : (dir : List ℕ) → All NotSlash name → path ≡ dir ++ (slash ∷ name) → IsBaseName path name

after_last_slash-split :
    (cs name : List ℕ)
    → after_last_slash cs ≡ some name
    → (dir : List ℕ) × (cs ≡ dir ++ (slash ∷ name))
unfolding after_last_slash
after_last_slash-split [] name e = absurd (ground arith)
after_last_slash-split (c ∷ cs) name e = elim (Option-cases (after_last_slash cs)) [
  | inl n ↦ elim (Bool-cases (c == slash)) [
    | inl t ↦ ([], ground (arith, n, t))
    | inr f ↦ absurd (ground (arith, n, f))
  ]
  | inr (found, s) ↦
      let (dir, split) = after_last_slash-split cs found s in
      let here : found ≡ name = ground (arith, s) in
      (c ∷ dir, ap (λ t. c ∷ t) (split ∙ ap (λ t. dir ++ (slash ∷ t)) here))
]

basename-IsBaseName : (path : List ℕ) → IsBaseName path (basename path)
unfolding basename
basename-IsBaseName path = elim (Option-cases (after_last_slash path)) [
  | inl n ↦ rw n (whole (after_last_slash-none path n) refl)
  | inr (name, s) ↦
      let (dir, split) = after_last_slash-split path name s in
      rw s (behind dir (after_last_slash-some path name s) split)
]

IsBaseName-basename : (path name : List ℕ) → IsBaseName path name → basename path ≡ name
unfolding basename
IsBaseName-basename path name (whole h e) = rw (no_slash path h) e
IsBaseName-basename path name (behind dir h e) =
    rw (ap after_last_slash e ∙ after_last_slash-append dir name h) refl

abbrev pub HasLibraryName : MinidumpModule → Type 0
HasLibraryName m = (name : List ℕ) × IsBaseName m.name name × IsSharedLibName name

-- The first module on disk whose name is not that of a library: each one in front of it has such a
-- name or is not on disk.
pub record IsFirstOnDisk (fs : FileSystem) (modules : List MinidumpModule) (m : MinidumpModule)
    : Type 0 where
  pub front : List MinidumpModule
  pub back : List MinidumpModule
  pub split : modules ≡ front ++ (m ∷ back)
  pub passed_over :
      All (λ (n : MinidumpModule). HasLibraryName n ⊎ (fs.metadata_is_ok n.name ≡ false)) front
  pub no_library : ¬ HasLibraryName m
  pub on_disk : fs.metadata_is_ok m.name ≡ true

library_named :
    (m : MinidumpModule) → looks_like_shared_lib (basename m.name) ≡ true → HasLibraryName m
library_named m t =
    (basename m.name, basename-IsBaseName m.name, (looks_like_shared_lib_lem _).1.0 t)

not_library_named :
    (m : MinidumpModule) → looks_like_shared_lib (basename m.name) ≡ false → ¬ HasLibraryName m
not_library_named m f (name, base, is_name) =
    let t : looks_like_shared_lib name ≡ true = (looks_like_shared_lib_lem name).1.1 is_name in
    let same : basename m.name ≡ name = IsBaseName-basename m.name name base in
    let t' : looks_like_shared_lib (basename m.name) ≡ true = ap looks_like_shared_lib same ∙ t in
    absurd (ground (arith, f, t'))

module _ (fs : FileSystem) where
  pass :
      (n m : MinidumpModule) (ms : List MinidumpModule)
      → HasLibraryName n ⊎ (fs.metadata_is_ok n.name ≡ false)
      → IsFirstOnDisk fs ms m
      → IsFirstOnDisk fs (n ∷ ms) m
  pass n m ms why first = record {
    front = n ∷ first.front;
    back = first.back;
    split = ap (λ t. n ∷ t) first.split;
    passed_over = (why, first.passed_over);
    no_library = first.no_library;
    on_disk = first.on_disk;
  }

  pub first_on_disk-IsFirstOnDisk :
      (modules : List MinidumpModule) (m : MinidumpModule)
      → first_on_disk fs modules ≡ some m
      → IsFirstOnDisk fs modules m
  unfolding first_on_disk
  first_on_disk-IsFirstOnDisk [] m e = absurd (ground arith)
  first_on_disk-IsFirstOnDisk (n ∷ ms) m e =
      elim (Bool-cases (looks_like_shared_lib (basename n.name))) [
        | inl t ↦
            pass n m ms (inl (library_named n t))
              (first_on_disk-IsFirstOnDisk ms m (ground (arith, t)))
        | inr f ↦ elim (Bool-cases (fs.metadata_is_ok n.name)) [
          | inl there ↦
              let same : n ≡ m = ground (arith, f, there) in
              subst (IsFirstOnDisk fs (n ∷ ms)) same (record {
                front = [];
                back = ms;
                split = refl;
                passed_over = tt;
                no_library = not_library_named n f;
                on_disk = there;
              })
          | inr gone ↦
              pass n m ms (inr gone) (first_on_disk-IsFirstOnDisk ms m (ground (arith, f, gone)))
        ]
      ]
