-- ===== src/Augment/Frame.antt =====
-- What `add_data_to_mapping` of src/augment.rs leaves alone.
use minidump2core.Prelude.{
  ℕ, ◌-◌, ◌≡◌, ◌≢◌, refl, ap, sym, ◌∙◌, Bool-cases, inl, inr, some, Option-cases, List, [], ◌∷◌,
  length, ◌==◌, arith,
}
use minidump2core.Error.{Result, ok, err, panic, ok_or}
use minidump2core.BTreeMap
use minidump2core.Model.Align.{align_down, padded_vec}
use minidump2core.Model.Mapping.{Mapping, contains}
use minidump2core.Augment.{
  Mappings, Outcome, attempt, wrapping_sub, store, split_offset, cut_at, split_mapping, new_region,
  add_data_to_mapping,
}
use minidump2core.BTreeMap.Laws.{get-insert}

get-adjust_other :
    (k j : ℕ) (f : Mapping → Mapping) (ms : Mappings)
    → j ≢ k
    → BTreeMap.get j (BTreeMap.adjust k f ms) ≡ BTreeMap.get j ms
unfolding BTreeMap.get BTreeMap.adjust
get-adjust_other k j f [] h = refl
get-adjust_other k j f ((i, w) ∷ ms) h = ground (arith, get-adjust_other k j f ms h)

-- The table gives the same at a key.
abbrev Keeps : ℕ → Mappings → Outcome → Type 0
Keeps j ms o = BTreeMap.get j o.0 ≡ BTreeMap.get j ms

attempt-Keeps :
    {A : Type 0} (j : ℕ) (ms before : Mappings) (r : Result A) (f : A → Outcome)
    → BTreeMap.get j before ≡ BTreeMap.get j ms
    → ((a : A) → Keeps j ms (f a))
    → Keeps j ms (attempt before r f)
attempt-Keeps j ms before (ok a) f e h = h a
attempt-Keeps j ms before (err x) f e h = e
attempt-Keeps j ms before (panic s) f e h = e

store-Keeps :
    (j a : ℕ) (m : Mapping) (bytes : List ℕ) (ms before : Mappings)
    → j ≢ a
    → BTreeMap.get j before ≡ BTreeMap.get j ms
    → Keeps j ms (store m a bytes before)
unfolding store
store-Keeps j a m bytes ms before h e = get-insert a j _ before ∙ ground (arith, e)

split-Keeps :
    (j key a : ℕ) (bytes : List ℕ) (ms : Mappings)
    → j ≢ a
    → j ≢ key
    → Keeps j ms (split_mapping key a bytes ms)
unfolding split_mapping
split-Keeps j key a bytes ms h k = attempt-Keeps j ms ms (ok_or (BTreeMap.get key ms) _) _ refl λ m.
    elim (Bool-cases (a == key)) [
      | inl same ↦ rw same (store-Keeps j a m bytes ms ms h refl)
      | inr other ↦ rw other (
          attempt-Keeps j ms _ (split_offset m (wrapping_sub a key)) _
            (get-adjust_other key j (cut_at a) ms k)
            (λ moved. store-Keeps j a moved bytes ms _ h (get-adjust_other key j (cut_at a) ms k)))
    ]

-- However the call ends, the mappings under all other keys than the page of the address and the key
-- of the mapping that contains it stay as they are.
pub add_data_to_mapping-keeps :
    (ms : Mappings) (bytes : List ℕ) (address page_size aligned_address j : ℕ)
    → align_down address page_size ≡ ok aligned_address
    → j ≢ aligned_address
    → BTreeMap.find_key (λ m. contains m address) ms ≢ some j
    → BTreeMap.get j (add_data_to_mapping ms bytes address page_size).0 ≡ BTreeMap.get j ms
unfolding add_data_to_mapping
add_data_to_mapping-keeps ms bytes address page_size a j down h other = rw down (
    attempt-Keeps j ms ms (padded_vec (address - a) bytes page_size) _ refl λ padded.
      elim (Option-cases (BTreeMap.find_key (λ m. contains m address) ms)) [
        | inl fresh ↦ rw fresh (
            attempt-Keeps j ms ms (new_region a address (length bytes) page_size) _ refl
              (λ m. store-Keeps j a m padded ms ms h refl))
        | inr (key, taken) ↦
            rw taken (split-Keeps j key a padded ms h (λ e. other (taken ∙ ap some (sym e))))
      ])
