-- ===== src/BTreeMap.antt =====
-- `std::collections::BTreeMap<u64, V>`: the entries in the order of their keys.
pub mod Laws
use minidump2core.Prelude.{
  ℕ, Bool, Option, none, some, List, [], ◌∷◌, ltb, ◌==◌, if◌then◌else◌, map,
}

abbrev pub BTreeMap {ℓ} : Type ℓ → Type ℓ
BTreeMap V = List (ℕ × V)

module _ {ℓ} {V : Type ℓ} where
  unfoldable pub get : ℕ → BTreeMap V → Option V
  get k [] = none
  get k ((j, w) ∷ m) = if k == j then some w else get k m

  -- `insert` puts a new entry in its place, and replaces the value of a key that is there.
  unfoldable pub insert : ℕ → V → BTreeMap V → BTreeMap V
  insert k v [] = (k, v) ∷ []
  insert k v ((j, w) ∷ m) =
      if ltb k j
      then (k, v) ∷ ((j, w) ∷ m)
      else (if k == j then (k, v) ∷ m else (j, w) ∷ insert k v m)

  -- `entry(k).or_insert(v)`
  unfoldable pub or_insert : ℕ → V → BTreeMap V → BTreeMap V
  or_insert k v m = elim (get k m) [ none ↦ insert k v m | some w ↦ m ]

  -- `if let Some(x) = get_mut(k) { *x = f(*x) }`
  unfoldable pub adjust : ℕ → (V → V) → BTreeMap V → BTreeMap V
  adjust k f [] = []
  adjust k f ((j, w) ∷ m) = if k == j then (j, f w) ∷ m else (j, w) ∷ adjust k f m

  -- `values()`
  unfoldable pub values : BTreeMap V → List V
  values [] = []
  values ((j, w) ∷ m) = w ∷ values m

  -- `iter().find_map(|(k, v)| test(v).then_some(*k))`
  unfoldable pub find_key : (V → Bool) → BTreeMap V → Option ℕ
  find_key test [] = none
  find_key test ((j, w) ∷ m) = if test w then some j else find_key test m
