-- ===== src/Augment.antt =====
-- `add_data_to_mapping` and `augment_process` of src/augment.rs. A function that changes the mapping
-- table returns the table it leaves, also where it fails.
pub mod LinkMap
pub mod Dynamic
pub mod WellFormed
pub mod WholePass
pub mod Captured
pub mod Frame
use minidump2core.Prelude.{
  ℕ, ◌+◌, ◌-◌, ◌%◌, ◌^◌, Bool, true, false, not, ◌&&◌, ◌||◌, Option, none, some, List, [], ◌∷◌,
  length, ◌==◌, if◌then◌else◌,
}
use minidump2core.Error.{
  Result, ok, err, panic, ◌>>=◌, ok_or, Md2CoreError, integer_overflow, missing_field,
}
use minidump2core.BTreeMap.{BTreeMap}
use minidump2core.BTreeMap
use minidump2core.Model.Align.{checked_add, align_up, align_down, padded_vec}
use minidump2core.Model.Mapping.{Mapping, new_mapping, contains, read_write, default_page_size}
use minidump2core.Model.Process.{ThreadSnapshot, DsoDebug, CrashedProcess}
use minidump2core.Augment.LinkMap.{link_map_addr, build_link_map_blob}
use minidump2core.Augment.Dynamic.{patch_dt_debug}

abbrev pub Mappings : Type 0
Mappings = BTreeMap Mapping

-- What a function leaves in `mappings`, and its result.
abbrev pub Outcome : Type 0
Outcome = Mappings × Result (Unit {0})

-- The rest of a function after a fallible value, with `?`.
abbrev pub attempt : {A : Type 0} → Mappings → Result A → (A → Outcome) → Outcome
attempt mappings (ok a) f = f a
attempt mappings (err e) f = (mappings, err e)
attempt mappings (panic s) f = (mappings, panic s)

-- `a - b` on `u64`, as the release build computes it.
abbrev pub wrapping_sub : ℕ → ℕ → ℕ
wrapping_sub a b = (a + (2 ^ 64 - b)) % 2 ^ 64

-- The captured bytes take the place of the mapping's rest.
unfoldable pub store : Mapping → ℕ → List ℕ → Mappings → Outcome
store data_mapping aligned_address mapping_data mappings = (
  BTreeMap.insert aligned_address
      (record data_mapping { start_address = aligned_address; bytes = mapping_data }) mappings,
  ok tt,
)

-- The offset of the part behind the split.
unfoldable pub split_offset : Mapping → ℕ → Result Mapping
split_offset data_mapping distance = elim (data_mapping.filename) [
  | none ↦ ok data_mapping
  | some name ↦ do
    offset ←
        ok_or (checked_add data_mapping.offset distance) (integer_overflow "split mapping offset")
    ok (record data_mapping { offset = offset })
]

-- `existing.end_address = aligned_address`
abbrev pub cut_at : ℕ → Mapping → Mapping
cut_at aligned_address m = record m { end_address = aligned_address }

-- The mapping at `key` contains the address.
unfoldable pub split_mapping : ℕ → ℕ → List ℕ → Mappings → Outcome
unfolding store split_offset
split_mapping key aligned_address mapping_data mappings =
    attempt mappings (ok_or (BTreeMap.get key mappings) (missing_field "mapping")) λ data_mapping.
      if aligned_address == key
      then store data_mapping aligned_address mapping_data mappings
      else (let cut = BTreeMap.adjust key (cut_at aligned_address) mappings in
          attempt cut (split_offset data_mapping (wrapping_sub aligned_address key))
            λ moved. store moved aligned_address mapping_data cut)

-- No mapping contains the address.
unfoldable pub new_region : ℕ → ℕ → ℕ → ℕ → Result Mapping
new_region aligned_address address data_len page_size = do
  last ← ok_or (checked_add address data_len) (integer_overflow "synthetic mapping end")
  end ← align_up last page_size
  new_mapping aligned_address end read_write

unfoldable pub add_data_to_mapping : Mappings → List ℕ → ℕ → ℕ → Outcome
unfolding split_mapping new_region
add_data_to_mapping mappings bytes address page_size =
    attempt mappings (align_down address page_size) λ aligned_address.
      attempt mappings (padded_vec (address - aligned_address) bytes page_size) λ mapping_data.
        elim (BTreeMap.find_key (λ m. contains m address) mappings) [
          | some key ↦ split_mapping key aligned_address mapping_data mappings
          | none ↦
              attempt mappings (new_region aligned_address address (length bytes) page_size)
                λ mapping. store mapping aligned_address mapping_data mappings
        ]

-- One call after the other, with `?`.
abbrev pub then_do : Outcome → (Mappings → Outcome) → Outcome
then_do (mappings, ok u) f = f mappings
then_do (mappings, err e) f = (mappings, err e)
then_do (mappings, panic s) f = (mappings, panic s)

abbrev pub is_empty {ℓ} : {A : Type ℓ} → List A → Bool
is_empty [] = true
is_empty (x ∷ xs) = false

module _ {C : Type 0} where
  -- The stacks of the threads.
  unfoldable pub add_stacks : List (ThreadSnapshot C) → Mappings → Outcome
  add_stacks [] mappings = (mappings, ok tt)
  add_stacks (t ∷ ts) mappings =
      then_do
        (if is_empty t.stack
          then (mappings, ok tt)
          else add_data_to_mapping mappings t.stack t.stack_address default_page_size)
        (add_stacks ts)

  -- The patched `_DYNAMIC` array.
  unfoldable pub add_dynamic : CrashedProcess C → Mappings → Outcome
  add_dynamic p mappings =
      let dso = p.dso_debug in
      if not (is_empty dso.dynamic_data) && not (dso.dynamic == 0)
      then (attempt mappings (patch_dt_debug p.architecture dso.dynamic_data link_map_addr)
          λ dyn_data. add_data_to_mapping mappings dyn_data dso.dynamic default_page_size)
      else (mappings, ok tt)

  -- The rebuilt `r_debug` and link map.
  unfoldable pub add_link_map : CrashedProcess C → Mappings → Outcome
  unfolding add_dynamic
  add_link_map p mappings =
      let dso = p.dso_debug in
      if not (dso.version == 0) || (not (is_empty dso.link_map) || not (is_empty dso.dynamic_data))
      then (attempt mappings (build_link_map_blob p.architecture dso p.signatures) λ blob.
          then_do (add_data_to_mapping mappings blob link_map_addr default_page_size)
            (add_dynamic p))
      else (mappings, ok tt)

  unfoldable pub augment_process : CrashedProcess C → CrashedProcess C × Result (Unit {0})
  unfolding add_stacks add_link_map
  augment_process p =
      let outcome : Outcome = then_do (add_stacks p.threads p.mappings) (add_link_map p) in
      (record p { mappings = outcome.0 }, outcome.1)
