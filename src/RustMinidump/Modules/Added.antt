-- ===== src/RustMinidump/Modules/Added.antt =====
-- Which mapping and signature `ingest_modules` adds for a module.
use minidump2core.Prelude.{
  ℕ, ◌+◌, ◌%◌, ◌^◌, ◌<◌, ◌≡◌, refl, ap, ◌∙◌, ◌≢◌, arith, inl, inr, Bool, true, false, Bool-cases,
  none, some, Option-cases, List, [], ◌∷◌, ◌++◌, ltb, leb, All,
}
use minidump2core.Error.{Result, ok, err, panic}
use minidump2core.BTreeMap.{get, or_insert}
use minidump2core.BTreeMap.Laws.{get-insert, get-insert_self}
use minidump2core.Model.Mapping.{Mapping, new_mapping, read_only, with_file, permissions}
use minidump2core.Model.Process.{insert_mapping_if_absent}
use minidump2core.Augment.{Mappings}
use minidump2core.NoteSegment.{Process}
use minidump2core.RustMinidump.Modules.Table.{name_from-signatures}
use minidump2core.RustMinidump.Streams.{MinidumpModule}
use minidump2core.RustMinidump.Modules.{
  ConvertOptions, signature_for, insert_if_ok, add_signature, map_module, ingest_module,
  ingest_each, first_executable, ingest_modules,
}
use minidump2core.RustMinidump.Modules.Kept.{
  or_insert-absent, or_insert-present, ingest_modules-mappings,
}

or_insert-other :
    (k j : ℕ) (v : Mapping) (ms : Mappings) → k ≢ j → get k (or_insert j v ms) ≡ get k ms
or_insert-other k j v ms h = elim (Option-cases (get j ms)) [
  | inl n ↦ ap (get k) (or_insert-absent j v ms n) ∙ get-insert j k v ms ∙ ground (arith, h)
  | inr (y, s) ↦ ap (get k) (or_insert-present j v y ms s)
]

new_mapping-start :
    (start end_address : ℕ) (r w x : Bool) (m : Mapping)
    → new_mapping start end_address (permissions r w x) ≡ ok m
    → m.start_address ≡ start
unfolding new_mapping
new_mapping-start start end_address r w x m e = ground arith

insert_if_ok-other :
    (k : ℕ) (made : Result Mapping) (name : List ℕ) (p : Process)
    → ((m : Mapping) → made ≡ ok m → k ≢ m.start_address)
    → get k (insert_if_ok made name p).mappings ≡ get k p.mappings
unfolding insert_mapping_if_absent with_file
insert_if_ok-other k (ok m) name p h =
    or_insert-other k m.start_address (with_file m name 0) p.mappings (h m refl)
insert_if_ok-other k (err error) name p h = refl
insert_if_ok-other k (panic message) name p h = refl

-- A module leaves the keys that are not its base alone.
map_module-other :
    (k : ℕ) (m : MinidumpModule) (name : List ℕ) (p : Process)
    → k ≢ m.base_of_image
    → get k (map_module m name p).mappings ≡ get k p.mappings
unfolding map_module read_only
map_module-other k m name p h = elim (Bool-cases (ltb 0 m.size_of_image)) [
  | inl t ↦ rw t (
      insert_if_ok-other k
        (new_mapping m.base_of_image ((m.base_of_image + m.size_of_image) % 2 ^ 64) read_only) name
        p
        (λ made e s. h (
          s
          ∙ new_mapping-start m.base_of_image ((m.base_of_image + m.size_of_image) % 2 ^ 64) true
              false false made e)))
  | inr f ↦ rw f refl
]

insert_if_ok-signatures :
    (made : Result Mapping) (name : List ℕ) (p : Process)
    → (insert_if_ok made name p).signatures ≡ p.signatures
unfolding insert_mapping_if_absent
insert_if_ok-signatures (ok m) name p = refl
insert_if_ok-signatures (err error) name p = refl
insert_if_ok-signatures (panic message) name p = refl

map_module-signatures :
    (k : ℕ) (m : MinidumpModule) (name : List ℕ) (p : Process)
    → get k (map_module m name p).signatures ≡ get k p.signatures
unfolding map_module
map_module-signatures k m name p = elim (Bool-cases (ltb 0 m.size_of_image)) [
  | inl t ↦ rw t (ap (get k) (insert_if_ok-signatures _ name p))
  | inr f ↦ rw f refl
]

abbrev pub OtherBase : ℕ → MinidumpModule → Type 0
OtherBase k m = k ≢ m.base_of_image

ingest_each-other :
    (k : ℕ) (options : ConvertOptions) (ms : List MinidumpModule) (p : Process)
    → All (OtherBase k) ms
    → (get k (ingest_each options ms p).mappings ≡ get k p.mappings)
      × (get k (ingest_each options ms p).signatures ≡ get k p.signatures)
unfolding ingest_each ingest_module add_signature
ingest_each-other k options [] p h = (refl, refl)
ingest_each-other k options (m ∷ ms) p h =
    let later = ingest_each-other k options ms (ingest_module options m p) h.1 in
    (
      later.0 ∙ map_module-other k m (signature_for m options) p h.0,
      later.1
          ∙ get-insert m.base_of_image k (signature_for m options)
              (map_module m (signature_for m options) p).signatures
          ∙ ground (arith, h.0)
          ∙ map_module-signatures k m (signature_for m options) p,
    )

ingest_each-append :
    (options : ConvertOptions) (front back : List MinidumpModule) (p : Process)
    → ingest_each options (front ++ back) p ≡ ingest_each options back (ingest_each options front p)
unfolding ingest_each
ingest_each-append options [] back p = refl
ingest_each-append options (m ∷ front) back p =
    ingest_each-append options front back (ingest_module options m p)

-- What a module's mapping is.
unfoldable pub module_mapping : MinidumpModule → ConvertOptions → Mapping
unfolding permissions
module_mapping m options = record {
  start_address = m.base_of_image;
  end_address = m.base_of_image + m.size_of_image;
  offset = 0;
  permissions = permissions true false false;
  filename = some (signature_for m options);
  bytes = [];
}

module_mapping-made :
    (m : MinidumpModule) (options : ConvertOptions) (p : Process)
    → 0 < m.size_of_image
    → m.base_of_image + m.size_of_image < 2 ^ 64
    → get m.base_of_image p.mappings ≡ none
    → get m.base_of_image (map_module m (signature_for m options) p).mappings
      ≡ some (module_mapping m options)
unfolding map_module module_mapping new_mapping with_file read_only insert_mapping_if_absent
module_mapping-made m options p h k e =
    let size : ltb 0 m.size_of_image ≡ true = ground arith in
    let no_wrap : (m.base_of_image + m.size_of_image) % 2 ^ 64 ≡ m.base_of_image + m.size_of_image =
      omega arith in
    let ordered : leb (m.base_of_image + m.size_of_image) m.base_of_image ≡ false = ground arith in
    rw size (
      rw no_wrap (
        rw ordered (
          ap (get m.base_of_image) (or_insert-absent m.base_of_image _ p.mappings e)
          ∙ get-insert_self m.base_of_image _ p.mappings)))

-- A module whose base no other module and no mapping has, whose size is not 0 and whose end is below
-- 2 ^ 64 gets the mapping of its range, read-only, under the name that `signature_for` gives, and its
-- base is looked up under the same name.
pub ingest_modules-adds :
    (options : ConvertOptions) (front : List MinidumpModule) (m : MinidumpModule)
    (back : List MinidumpModule) (p : Process)
    → All (OtherBase m.base_of_image) front
    → All (OtherBase m.base_of_image) back
    → get m.base_of_image p.mappings ≡ none
    → 0 < m.size_of_image
    → m.base_of_image + m.size_of_image < 2 ^ 64
    → (get m.base_of_image (ingest_modules p (front ++ (m ∷ back)) options).mappings
        ≡ some (module_mapping m options))
      × (get m.base_of_image (ingest_modules p (front ++ (m ∷ back)) options).signatures
          ≡ some (signature_for m options))
unfolding ingest_each ingest_module add_signature ingest_modules
ingest_modules-adds options front m back p f b e h k =
    let before = ingest_each options front p in
    let here = ingest_module options m before in
    let behind = ingest_each-other m.base_of_image options back here b in
    let order = ingest_each-append options front (m ∷ back) p in
    let ahead = ingest_each-other m.base_of_image options front p f in
    (
      ap (get m.base_of_image) (ingest_modules-mappings p (front ++ (m ∷ back)) options)
          ∙ ap (λ (q : Process). get m.base_of_image q.mappings) order
          ∙ behind.0
          ∙ module_mapping-made m options before h k (ahead.0 ∙ e),
      ap (get m.base_of_image) (
            name_from-signatures (first_executable (front ++ (m ∷ back)))
              (ingest_each options (front ++ (m ∷ back)) p))
          ∙ ap (λ (q : Process). get m.base_of_image q.signatures) order
          ∙ behind.1
          ∙ get-insert_self m.base_of_image (signature_for m options)
              (map_module m (signature_for m options) before).signatures,
    )
