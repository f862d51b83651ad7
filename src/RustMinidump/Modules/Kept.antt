-- ===== src/RustMinidump/Modules/Kept.antt =====
-- `ingest_modules` keeps the mappings that are there.
use minidump2core.Prelude.{
  ℕ, ◌≡◌, refl, ap, sym, ◌∙◌, inl, inr, Bool-cases, none, some, Option-cases, List, [], ◌∷◌, ltb,
  ◌==◌, ==_iff,
}
use minidump2core.Error.{Result, ok, err, panic}
use minidump2core.BTreeMap.{get, insert, or_insert}
use minidump2core.BTreeMap.Laws.{get-insert}
use minidump2core.Model.Mapping.{Mapping, with_file}
use minidump2core.Model.Process.{insert_mapping_if_absent}
use minidump2core.Augment.{Mappings}
use minidump2core.NoteSegment.{Process}
use minidump2core.RustMinidump.Modules.Table.{name_from-mappings}
use minidump2core.RustMinidump.Streams.{MinidumpModule}
use minidump2core.RustMinidump.Modules.{
  ConvertOptions, signature_for, insert_if_ok, add_signature, map_module, ingest_module,
  ingest_each, first_executable, ingest_modules,
}

pub or_insert-absent :
    (j : ℕ) (v : Mapping) (ms : Mappings) → get j ms ≡ none → or_insert j v ms ≡ insert j v ms
unfolding or_insert
or_insert-absent j v ms e = rw (e, or_insert) refl

pub or_insert-present :
    (j : ℕ) (v x : Mapping) (ms : Mappings) → get j ms ≡ some x → or_insert j v ms ≡ ms
unfolding or_insert
or_insert-present j v x ms e = rw (e, or_insert) refl

-- A mapping that is there stays.
or_insert-keeps :
    (k j : ℕ) (v x : Mapping) (ms : Mappings)
    → get k ms ≡ some x
    → get k (or_insert j v ms) ≡ some x
or_insert-keeps k j v x ms e = elim (Option-cases (get j ms)) [
  | inl n ↦ elim (Bool-cases (k == j)) [
    | inl same ↦
        let at : k ≡ j = (==_iff k j).0 same in
        let clash : none ≡ some x = sym n ∙ ap (λ i. get i ms) (sym at) ∙ e in absurd (cc)
    | inr other ↦ ap (get k) (or_insert-absent j v ms n) ∙ get-insert j k v ms ∙ rw other e
  ]
  | inr (y, s) ↦ ap (get k) (or_insert-present j v y ms s) ∙ e
]

insert_if_ok-keeps :
    (k : ℕ) (x : Mapping) (made : Result Mapping) (name : List ℕ) (p : Process)
    → get k p.mappings ≡ some x
    → get k (insert_if_ok made name p).mappings ≡ some x
unfolding insert_mapping_if_absent
insert_if_ok-keeps k x (ok m) name p e =
    or_insert-keeps k (with_file m name 0).start_address (with_file m name 0) x p.mappings e
insert_if_ok-keeps k x (err error) name p e = e
insert_if_ok-keeps k x (panic message) name p e = e

map_module-keeps :
    (k : ℕ) (x : Mapping) (m : MinidumpModule) (name : List ℕ) (p : Process)
    → get k p.mappings ≡ some x
    → get k (map_module m name p).mappings ≡ some x
unfolding map_module
map_module-keeps k x m name p e = elim (Bool-cases (ltb 0 m.size_of_image)) [
  | inl t ↦ rw t (insert_if_ok-keeps k x _ name p e)
  | inr f ↦ rw f e
]

ingest_each-keeps :
    (k : ℕ) (x : Mapping) (options : ConvertOptions) (ms : List MinidumpModule) (p : Process)
    → get k p.mappings ≡ some x
    → get k (ingest_each options ms p).mappings ≡ some x
unfolding ingest_each ingest_module add_signature
ingest_each-keeps k x options [] p e = e
ingest_each-keeps k x options (m ∷ ms) p e =
    ingest_each-keeps k x options ms (ingest_module options m p)
      (map_module-keeps k x m (signature_for m options) p e)

pub ingest_modules-mappings :
    (p : Process) (ms : List MinidumpModule) (options : ConvertOptions)
    → (ingest_modules p ms options).mappings ≡ (ingest_each options ms p).mappings
unfolding ingest_modules
ingest_modules-mappings p ms options =
    name_from-mappings (first_executable ms) (ingest_each options ms p)

-- A mapping that the process has, from the Linux maps, stays as it is through `ingest_modules`.
pub ingest_modules-keeps :
    (k : ℕ) (x : Mapping) (options : ConvertOptions) (ms : List MinidumpModule) (p : Process)
    → get k p.mappings ≡ some x
    → get k (ingest_modules p ms options).mappings ≡ some x
ingest_modules-keeps k x options ms p e =
    ap (get k) (ingest_modules-mappings p ms options) ∙ ingest_each-keeps k x options ms p e
