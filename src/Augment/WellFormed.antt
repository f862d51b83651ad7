-- ===== src/Augment/WellFormed.antt =====
-- The mapping table that src/augment.rs leaves: its order, its keys, its alignment and its ranges.
use minidump2core.Prelude.{
  ℕ, ◌+◌, ◌-◌, ◌%◌, ◌<◌, ◌≤◌, ◌≡◌, refl, ap, sym, ◌∙◌, Bool, true, false, Bool-cases, inl, inr,
  Option, none, some, Option-cases, List, length, ◌==◌, if◌then◌else◌, arith,
}
use mathlib.Core.Path.{subst}
use minidump2core.Error.{
  Result, ok, err, panic, ◌>>=◌, integer_overflow, ok_or, >>=-eq-ok, ok-injective,
}
use minidump2core.Bytes.{IsU64}
use minidump2core.BTreeMap.Laws.{
  IsSorted, Entries, Entries-insert, insert-IsSorted, get-Entries, Entries-adjust, adjust-IsSorted,
  find_key-get,
}
use minidump2core.BTreeMap
use minidump2core.Model.Align.{align_up, padded_vec, checked_add}
use minidump2core.Model.Align.Least.{align_up_least, multiple_below, align_down_greatest}
use minidump2core.Model.Mapping.{Mapping, new_mapping, contains, read_write}
use minidump2core.Augment.{
  Mappings, Outcome, attempt, wrapping_sub, store, split_offset, cut_at, split_mapping, new_region,
  add_data_to_mapping, then_do,
}

-- A mapping stands under its start address, starts on a page and is not empty.
pub record IsMapped (page_size k : ℕ) (m : Mapping) : Type 0 where
  pub keyed : k ≡ m.start_address
  pub aligned : m.start_address % page_size ≡ 0
  pub ranged : m.start_address < m.end_address
  pub bounded : IsU64 m.end_address

pub record WellFormed (page_size : ℕ) (ms : Mappings) : Type 0 where
  pub sorted : IsSorted ms
  pub mapped : Entries (IsMapped page_size) ms

module _ (page_size : ℕ) (pos : 0 < page_size) where
  store-WellFormed :
      (m : Mapping) (aligned_address : ℕ) (bytes : List ℕ) (ms : Mappings)
      → aligned_address % page_size ≡ 0
      → aligned_address < m.end_address
      → IsU64 m.end_address
      → WellFormed page_size ms
      → WellFormed page_size (store m aligned_address bytes ms).0
  unfolding store
  store-WellFormed m a bytes ms h r b w = record {
    sorted = insert-IsSorted a _ ms w.sorted;
    mapped =
        Entries-insert (IsMapped page_size) a _ ms
          (record { keyed = refl; aligned = h; ranged = r; bounded = b }) w.mapped;
  }

  cut-WellFormed :
      (key aligned_address : ℕ) (ms : Mappings)
      → key < aligned_address
      → IsU64 aligned_address
      → WellFormed page_size ms
      → WellFormed page_size (BTreeMap.adjust key (cut_at aligned_address) ms)
  cut-WellFormed key a ms h b w = record {
    sorted = adjust-IsSorted key (cut_at a) ms w.sorted;
    mapped =
        Entries-adjust (IsMapped page_size) key (cut_at a) ms
          (λ v e p. record {
            keyed = p.keyed;
            aligned = p.aligned;
            ranged = omega (arith, p.keyed);
            bounded = b;
          })
          w.mapped;
  }

  pub attempt-WellFormed :
      {A : Type 0} (ms : Mappings) (r : Result A) (f : A → Outcome)
      → WellFormed page_size ms
      → ((a : A) → r ≡ ok a → WellFormed page_size (f a).0)
      → WellFormed page_size (attempt ms r f).0
  attempt-WellFormed ms (ok a) f w h = h a refl
  attempt-WellFormed ms (err e) f w h = w
  attempt-WellFormed ms (panic s) f w h = w

  pub then-WellFormed :
      (o : Outcome) (f : Mappings → Outcome)
      → WellFormed page_size o.0
      → ((ms : Mappings) → WellFormed page_size ms → WellFormed page_size (f ms).0)
      → WellFormed page_size (then_do o f).0
  then-WellFormed (ms, ok u) f w h = h ms w
  then-WellFormed (ms, err e) f w h = w
  then-WellFormed (ms, panic s) f w h = w

  pub if-WellFormed :
      (b : Bool) (x y : Outcome)
      → WellFormed page_size x.0
      → WellFormed page_size y.0
      → WellFormed page_size (if b then x else y).0
  if-WellFormed true x y h k = h
  if-WellFormed false x y h k = k

  split_offset-end :
      (m moved : Mapping) (d : ℕ) → split_offset m d ≡ ok moved → moved.end_address ≡ m.end_address
  unfolding split_offset
  split_offset-end m moved d e = opened m.filename e
    where
      opened :
          (f : Option (List ℕ))
          → (elim f as (λ _. Result Mapping) [
            | none ↦ ok m
            | some name ↦
                ok_or (checked_add m.offset d) (integer_overflow "split mapping offset")
                >>= λ offset. ok (record m { offset = offset })
          ])
            ≡ ok moved
          → moved.end_address ≡ m.end_address
      opened none h = ap (λ (t : Mapping). t.end_address) (sym (ok-injective h))
      opened (some name) h =
          let added =
            >>=-eq-ok (ok_or (checked_add m.offset d) (integer_overflow "split mapping offset")) _
              h in
          ap (λ (t : Mapping). t.end_address) (sym (ok-injective added.2))

  new_mapping-end :
      (a last : ℕ) (m : Mapping)
      → new_mapping a last read_write ≡ ok m
      → (a < last) × (m.end_address ≡ last)
  unfolding new_mapping
  new_mapping-end a last m e = ground arith

  checked-IsU64 :
      (a b last : ℕ)
      → ok_or (checked_add a b) (integer_overflow "synthetic mapping end") ≡ ok last
      → IsU64 last
  checked-IsU64 a b last e = ground arith

  align_up-IsU64 : (v end : ℕ) → IsU64 v → align_up v page_size ≡ ok end → IsU64 end
  align_up-IsU64 v end h e =
      let (r, result, _, _, _) = align_up_least v page_size h pos in
      let returned = sym result ∙ e in ground arith

  new_region-end :
      (a address n : ℕ) (m : Mapping)
      → new_region a address n page_size ≡ ok m
      → (a < m.end_address) × IsU64 m.end_address
  unfolding new_region
  new_region-end a address n m e =
      let (last, fits, e₁) =
        >>=-eq-ok (ok_or (checked_add address n) (integer_overflow "synthetic mapping end")) _ e in
      let (end, up, e₂) = >>=-eq-ok (align_up last page_size) _ e₁ in
      let (ranged, ends) = new_mapping-end a end m e₂ in
      let small : IsU64 last = checked-IsU64 address n last fits in
      (omega (arith, ends), subst IsU64 (sym ends) (align_up-IsU64 last end small up))

  split-WellFormed :
      (key address aligned_address : ℕ) (bytes : List ℕ) (ms : Mappings)
      → aligned_address % page_size ≡ 0
      → aligned_address ≤ address
      → address < aligned_address + page_size
      → (m : Mapping) → BTreeMap.get key ms ≡ some m
      → contains m address ≡ true
      → WellFormed page_size ms
      → WellFormed page_size (split_mapping key aligned_address bytes ms).0
  unfolding split_mapping contains
  split-WellFormed key address a bytes ms h low high m found inside w =
      let p : IsMapped page_size key m = get-Entries (IsMapped page_size) key ms found w.mapped in
      let within : (m.start_address ≤ address) × (address < m.end_address) = ground arith in
      let below : key ≤ a =
        multiple_below key a address page_size (ap (λ k. k % page_size) p.keyed ∙ p.aligned) h
          (omega (arith, p.keyed, within.0)) high in
      rw found (elim (Bool-cases (a == key)) [
        | inl same ↦ rw same (store-WellFormed m a bytes ms h (omega arith) p.bounded w)
        | inr other ↦ rw other (
            attempt-WellFormed _ (split_offset m (wrapping_sub a key)) _
              (cut-WellFormed key a ms (ground arith) (omega (arith, p.bounded)) w)
              (λ moved e.
                let ends = split_offset-end m moved _ e in
                store-WellFormed moved a bytes _ h (omega (arith, ends))
                  (omega (arith, ends, p.bounded))
                  (cut-WellFormed key a ms (ground arith) (omega (arith, p.bounded)) w)))
      ])

  -- Whether `add_data_to_mapping` succeeds or fails, it leaves a well-formed table of mappings
  -- well-formed: in the order of the keys, and each mapping under its own start, on a page, not
  -- empty and with a 64-bit end. The page size is not 0.
  pub add_data_to_mapping-WellFormed :
      (ms : Mappings) (bytes : List ℕ) (address : ℕ)
      → WellFormed page_size ms
      → WellFormed page_size (add_data_to_mapping ms bytes address page_size).0
  unfolding add_data_to_mapping
  add_data_to_mapping-WellFormed ms bytes address w =
      let (a, down, h, low, high) = align_down_greatest address page_size pos in
      rw down (
        attempt-WellFormed ms (padded_vec (address - a) bytes page_size) _ w λ padded e.
          elim (Option-cases (BTreeMap.find_key (λ m. contains m address) ms)) [
            | inl fresh ↦ rw fresh (
                attempt-WellFormed ms (new_region a address (length bytes) page_size) _ w λ m made.
                  let (ranged, bounded) = new_region-end a address (length bytes) m made in
                  store-WellFormed m a padded ms h ranged bounded w)
            | inr (key, taken) ↦
                let (m, found, inside) = find_key-get (λ m. contains m address) ms w.sorted taken in
                rw taken (split-WellFormed key address a padded ms h low high m found inside w)
          ])
