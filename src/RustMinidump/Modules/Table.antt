-- ===== src/RustMinidump/Modules/Table.antt =====
-- The mapping table after `ingest_modules` is well-formed.
use minidump2core.Prelude.{
  ℕ, ◌+◌, ◌%◌, ◌^◌, ◌≡◌, refl, sym, arith, inl, inr, Bool, true, false, Bool-cases, Option, none,
  some, List, [], ◌∷◌, ltb, All,
}
use mathlib.Core.Path.{subst}
use minidump2core.Error.{Result, ok, err, panic}
use minidump2core.Bytes.{IsU64}
use minidump2core.BTreeMap.{get, insert, or_insert}
use minidump2core.BTreeMap.Laws.{Entries-insert, insert-IsSorted}
use minidump2core.Model.Mapping.{Mapping, new_mapping, read_only, with_file, permissions}
use minidump2core.Model.Process.{insert_mapping_if_absent, apply_module_name_fallback}
use minidump2core.Augment.{Mappings}
use minidump2core.Augment.WellFormed.{WellFormed, IsMapped}
use minidump2core.NoteSegment.{Process}
use minidump2core.RustMinidump.Streams.{MinidumpModule}
use minidump2core.RustMinidump.Modules.{
  ConvertOptions, signature_for, insert_if_ok, add_signature, map_module, ingest_module,
  ingest_each, first_executable, name_from, ingest_modules,
}

pub insert-WellFormed :
    (page_size : ℕ) (m : Mapping) (ms : Mappings)
    → IsMapped page_size m.start_address m
    → WellFormed page_size ms
    → WellFormed page_size (insert m.start_address m ms)
insert-WellFormed page_size m ms h w = record {
  sorted = insert-IsSorted m.start_address m ms w.sorted;
  mapped = Entries-insert (IsMapped page_size) m.start_address m ms h w.mapped;
}

or_insert-WellFormed :
    (page_size : ℕ) (m : Mapping) (ms : Mappings)
    → IsMapped page_size m.start_address m
    → WellFormed page_size ms
    → WellFormed page_size (or_insert m.start_address m ms)
unfolding or_insert
or_insert-WellFormed page_size m ms h w =
    elim (get m.start_address ms)
      as (λ (o : Option Mapping).
        WellFormed page_size (elim o [ none ↦ insert m.start_address m ms | some x ↦ ms ])) [
          | none ↦ insert-WellFormed page_size m ms h w
          | some x ↦ w
        ]

-- A mapping that `Mapping::new` returns, under its name.
pub new_mapping-IsMapped :
    (page_size start end_address offset : ℕ) (m : Mapping) (name : List ℕ) (r w x : Bool)
    → start % page_size ≡ 0
    → IsU64 end_address
    → new_mapping start end_address (permissions r w x) ≡ ok m
    → IsMapped page_size (with_file m name offset).start_address (with_file m name offset)
unfolding new_mapping with_file
new_mapping-IsMapped page_size start end_address offset m name r w x h b e = record {
  keyed = refl;
  aligned = ground arith;
  ranged = ground arith;
  bounded = ground arith;
}

insert_if_ok-WellFormed :
    (page_size : ℕ) (made : Result Mapping) (name : List ℕ) (p : Process)
    → ((m : Mapping)
        → made ≡ ok m
        → IsMapped page_size (with_file m name 0).start_address (with_file m name 0))
    → WellFormed page_size p.mappings
    → WellFormed page_size (insert_if_ok made name p).mappings
unfolding insert_mapping_if_absent
insert_if_ok-WellFormed page_size (ok m) name p h w =
    or_insert-WellFormed page_size (with_file m name 0) p.mappings (h m refl) w
insert_if_ok-WellFormed page_size (err error) name p h w = w
insert_if_ok-WellFormed page_size (panic message) name p h w = w

abbrev pub HasPage : ℕ → MinidumpModule → Type 0
HasPage page_size m = m.base_of_image % page_size ≡ 0

map_module-WellFormed :
    (page_size : ℕ) (m : MinidumpModule) (name : List ℕ) (p : Process)
    → HasPage page_size m
    → WellFormed page_size p.mappings
    → WellFormed page_size (map_module m name p).mappings
unfolding map_module read_only
map_module-WellFormed page_size m name p h w = elim (Bool-cases (ltb 0 m.size_of_image)) [
  | inl t ↦ rw t (
      insert_if_ok-WellFormed page_size
        (new_mapping m.base_of_image ((m.base_of_image + m.size_of_image) % 2 ^ 64) read_only) name
        p
        (λ made e.
          new_mapping-IsMapped page_size m.base_of_image
            ((m.base_of_image + m.size_of_image) % 2 ^ 64) 0 made name true false false h
            (omega arith) e)
        w)
  | inr f ↦ rw f w
]

ingest_each-WellFormed :
    (page_size : ℕ) (options : ConvertOptions) (ms : List MinidumpModule) (p : Process)
    → All (HasPage page_size) ms
    → WellFormed page_size p.mappings
    → WellFormed page_size (ingest_each options ms p).mappings
unfolding ingest_each ingest_module add_signature
ingest_each-WellFormed page_size options [] p h w = w
ingest_each-WellFormed page_size options (m ∷ ms) p h w =
    ingest_each-WellFormed page_size options ms (ingest_module options m p) h.1
      (map_module-WellFormed page_size m (signature_for m options) p h.0 w)

pub name_from-mappings :
    (m : Option MinidumpModule) (p : Process) → (name_from m p).mappings ≡ p.mappings
unfolding apply_module_name_fallback
name_from-mappings none p = refl
name_from-mappings (some m) p = refl

pub name_from-signatures :
    (m : Option MinidumpModule) (p : Process) → (name_from m p).signatures ≡ p.signatures
unfolding apply_module_name_fallback
name_from-signatures none p = refl
name_from-signatures (some m) p = refl

pub ingest_modules-WellFormed :
    (page_size : ℕ) (options : ConvertOptions) (ms : List MinidumpModule) (p : Process)
    → All (HasPage page_size) ms
    → WellFormed page_size p.mappings
    → WellFormed page_size (ingest_modules p ms options).mappings
unfolding ingest_modules
ingest_modules-WellFormed page_size options ms p h w =
    subst (WellFormed page_size)
      (sym (name_from-mappings (first_executable ms) (ingest_each options ms p)))
      (ingest_each-WellFormed page_size options ms p h w)
