-- ===== src/Augment/Captured.antt =====
-- What `add_data_to_mapping` of src/augment.rs puts into the mapping table, and what it leaves alone.
use minidump2core.Prelude.{
  ℕ, ◌+◌, ◌-◌, ◌%◌, ◌^◌, ◌<◌, ◌≤◌, ◌≡◌, refl, ap, sym, ◌∙◌, false, Bool-cases, inl, inr, Option,
  none, some, Option-cases, List, [], length, leb, ◌==◌, arith, lt→ltb, replicate, ◌++◌,
  length-append, length-replicate,
}
use mathlib.Core.Path.{subst}
use minidump2core.Error.{Result, ok, ◌>>=◌, integer_overflow, ok_or, ok-injective}
use minidump2core.Bytes.{IsU64, slice, slice-append}
use minidump2core.BTreeMap.Laws.{Entries, get-Entries, find_key-get}
use minidump2core.BTreeMap
use minidump2core.Model.Align.{align_up, align_down, checked_add}
use minidump2core.Model.Align.Least.{align_up_fits, multiple_below, align_down_greatest}
use minidump2core.Model.Mapping.{Mapping, new_mapping, contains, read_write}
use minidump2core.Augment.{
  Mappings, Outcome, attempt, wrapping_sub, store, split_offset, cut_at, split_mapping, new_region,
  add_data_to_mapping,
}
use minidump2core.Augment.WellFormed.{WellFormed, IsMapped}
use minidump2core.Model.Align.Least.{padded_vec_lem}
use minidump2core.BTreeMap.Laws.{get-insert_self}

-- A mapping that holds the bytes at the address.
pub record Holds (page_size aligned_address address : ℕ) (bytes : List ℕ) (m : Mapping)
    : Type 0 where
  pub starts : m.start_address ≡ aligned_address
  pub held : slice (address - m.start_address) (length bytes) m.bytes ≡ bytes
  pub whole_pages : length m.bytes % page_size ≡ 0

-- The call succeeds, and the table has such a mapping.
abbrev pub Captures : ℕ → ℕ → ℕ → List ℕ → Outcome → Type 0
Captures page_size a address bytes o =
    (ms : Mappings) × (m : Mapping) × (o ≡ (ms, ok tt))
    × (BTreeMap.get a ms ≡ some m)
    × Holds page_size a address bytes m

lt→leb : (a r : ℕ) → a < r → leb r a ≡ false
lt→leb a r h = ground arith

module _ (page_size a address : ℕ) (bytes padded : List ℕ) where
  store-Captures :
      (m : Mapping) (ms : Mappings)
      → slice (address - a) (length bytes) padded ≡ bytes
      → length padded % page_size ≡ 0
      → Captures page_size a address bytes (store m a padded ms)
  unfolding store
  store-Captures m ms h k = (
    BTreeMap.insert a (record m { start_address = a; bytes = padded }) ms,
    record m { start_address = a; bytes = padded },
    refl,
    get-insert_self a _ ms,
    record { starts = refl; held = h; whole_pages = k },
  )

  split_offset-ok :
      (m : Mapping) (d : ℕ)
      → m.offset + d < 2 ^ 64
      → (moved : Mapping) × (split_offset m d ≡ ok moved)
  unfolding split_offset
  split_offset-ok m d h = opened m.filename
    where
      opened :
          (f : Option (List ℕ))
          → (moved : Mapping) × ((elim f as (λ _. Result Mapping) [
            | none ↦ ok m
            | some name ↦
                ok_or (checked_add m.offset d) (integer_overflow "split mapping offset")
                >>= λ offset. ok (record m { offset = offset })
          ])
              ≡ ok moved)
      opened none = (m, refl)
      opened (some name) = (record m { offset = m.offset + d }, rw (lt→ltb _ _ h) refl)

  split-Captures :
      (key : ℕ) (m : Mapping) (ms : Mappings)
      → BTreeMap.get key ms ≡ some m
      → key ≤ a
      → a ≤ address
      → IsU64 address
      → m.offset + address < 2 ^ 64
      → slice (address - a) (length bytes) padded ≡ bytes
      → length padded % page_size ≡ 0
      → Captures page_size a address bytes (split_mapping key a padded ms)
  unfolding split_mapping
  split-Captures key m ms found below low word fits h k =
      let (moved, e) = split_offset-ok m (wrapping_sub a key) (omega arith) in
      rw found (elim (Bool-cases (a == key)) [
        | inl same ↦ rw same (store-Captures m ms h k)
        | inr other ↦ rw (other, e) (store-Captures moved (BTreeMap.adjust key (cut_at a) ms) h k)
      ])

  region_made :
      (r : ℕ)
      → address + length bytes < 2 ^ 64
      → align_up (address + length bytes) page_size ≡ ok r
      → a < r
      → (m : Mapping) × (new_region a address (length bytes) page_size ≡ ok m)
  unfolding new_region new_mapping
  region_made r fits up above = (
    record {
      start_address = a;
      end_address = r;
      offset = 0;
      permissions = read_write;
      filename = none;
      bytes = [];
    },
    rw (lt→ltb (address + length bytes) (2 ^ 64) fits, up) (rw (lt→leb a r above) refl),
  )

  fresh-Captures :
      (ms : Mappings)
      → 0 < page_size
      → 0 < length bytes
      → a ≤ address
      → address + length bytes + page_size ≤ 2 ^ 64
      → slice (address - a) (length bytes) padded ≡ bytes
      → length padded % page_size ≡ 0
      → Captures page_size a address bytes
          (attempt ms (new_region a address (length bytes) page_size) λ m. store m a padded ms)
  fresh-Captures ms pos some_bytes low fits h k =
      let (r, up, above) = align_up_fits (address + length bytes) page_size pos fits in
      let (m, made) = region_made r (omega arith) up (omega arith) in
      rw made (store-Captures m ms h k)

-- The slice and the size of the padded bytes.
padded_slice :
    (p n : ℕ) (bytes : List ℕ)
    → slice p (length bytes) (replicate p 0 ++ (bytes ++ replicate n 0)) ≡ bytes
padded_slice p n bytes =
    slice-append p (length bytes) (replicate p 0) bytes (replicate n 0) (sym (length-replicate p 0))
      refl

length-padded :
    (p n : ℕ) (bytes : List ℕ)
    → length (replicate p 0 ++ (bytes ++ replicate n 0)) ≡ p + length bytes + n
length-padded p n bytes = omega (
  arith,
  length-append (replicate p 0) (bytes ++ replicate n 0),
  length-append bytes (replicate n 0),
  length-replicate {A = ℕ} p 0,
  length-replicate {A = ℕ} n 0,
)

-- Adding bytes that are not empty to a well-formed table succeeds, where a page more still fits
-- 64 bits and so do the offsets of the mappings with the address added, and the mapping that then
-- stands under the page of the address holds the bytes at the address, in whole pages.
pub add_data_to_mapping-captured :
    (ms : Mappings) (bytes : List ℕ) (address page_size aligned_address : ℕ)
    → WellFormed page_size ms
    → 0 < page_size
    → 0 < length bytes
    → address + length bytes + page_size ≤ 2 ^ 64
    → Entries (λ _ m. m.offset + address < 2 ^ 64) ms
    → align_down address page_size ≡ ok aligned_address
    → Captures page_size aligned_address address bytes
        (add_data_to_mapping ms bytes address page_size)
unfolding add_data_to_mapping contains
add_data_to_mapping-captured ms bytes address page_size a w pos some_bytes fits offsets down =
    let (a', down', h, low', high') = align_down_greatest address page_size pos in
    let same : a' ≡ a = ok-injective (sym down' ∙ down) in
    let low : a ≤ address = omega (arith, same) in
    let (n, padded, _, fills) = padded_vec_lem (address - a) bytes page_size pos (omega arith) in
    let image : List ℕ = replicate (address - a) 0 ++ (bytes ++ replicate n 0) in
    let held = padded_slice (address - a) n bytes in
    let whole : length image % page_size ≡ 0 =
      ap (λ k. k % page_size) (length-padded (address - a) n bytes) ∙ fills in
    rw (down, padded)
      (elim (Option-cases (BTreeMap.find_key (λ m. contains m address) ms)) [
        | inl fresh ↦
            rw fresh
              (fresh-Captures page_size a address bytes image ms pos some_bytes low fits held whole)
        | inr (key, taken) ↦
            let (m, found, inside) = find_key-get (λ m. contains m address) ms w.sorted taken in
            let p = get-Entries (IsMapped page_size) key ms found w.mapped in
            let within : m.start_address ≤ address = ground arith in
            let below : key ≤ a =
              multiple_below key a address page_size (ap (λ k. k % page_size) p.keyed ∙ p.aligned)
                (subst (λ t. t % page_size ≡ 0) same h) (omega (arith, p.keyed))
                (omega (arith, same)) in
            rw taken (
              split-Captures page_size a address bytes image key m ms found below low (omega arith)
                (get-Entries (λ _ m. m.offset + address < 2 ^ 64) key ms found offsets) held whole)
      ])
