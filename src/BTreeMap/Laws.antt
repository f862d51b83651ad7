-- ===== src/BTreeMap/Laws.antt =====
-- The order of the keys and the entries after each operation of `BTreeMap`.
use minidump2core.Prelude.{
  ℕ, ◌<◌, ◌≡◌, refl, some, Bool, true, Bool-cases, inl, inr, ==_iff, [], ◌∷◌, All, ◌==◌,
  if◌then◌else◌, arith,
}
use mathlib.Core.Path.{subst}
use minidump2core.BTreeMap.{BTreeMap, get, insert, adjust, find_key}

module _ {ℓ} {V : Type ℓ} where
  -- Every key of the map is above `k`.
  abbrev pub Above : ℕ → BTreeMap V → Type 0
  Above k m = All (λ (e : ℕ × V). k < e.0) m

  abbrev pub IsSorted : BTreeMap V → Type 0
  IsSorted [] = Unit
  IsSorted ((k, v) ∷ m) = Above k m × IsSorted m

  -- A predicate on the entries.
  abbrev pub Entries {κ} : (ℕ → V → Type κ) → BTreeMap V → Type κ
  Entries P m = All (λ (e : ℕ × V). P e.0 e.1) m

  Above-mono : (i k : ℕ) (m : BTreeMap V) → i < k → Above k m → Above i m
  Above-mono i k [] h a = tt
  Above-mono i k (e ∷ m) h a = (omega (arith, a.0), Above-mono i k m h a.1)

  pub Entries-insert {κ} :
      (P : ℕ → V → Type κ) (k : ℕ) (v : V) (m : BTreeMap V)
      → P k v
      → Entries P m
      → Entries P (insert k v m)
  unfolding insert
  Entries-insert P k v [] p h = (p, tt)
  Entries-insert P k v ((j, w) ∷ m) p h = ground (arith, Entries-insert P k v m p)

  pub insert-IsSorted : (k : ℕ) (v : V) (m : BTreeMap V) → IsSorted m → IsSorted (insert k v m)
  unfolding insert
  insert-IsSorted k v [] s = (tt, tt)
  insert-IsSorted k v ((j, w) ∷ m) s =
      ground
        (arith, insert-IsSorted k v m s.1, Above-mono k j m, Entries-insert (λ i _. j < i) k v m)

  pub get-insert :
      (k j : ℕ) (v : V) (m : BTreeMap V)
      → get j (insert k v m) ≡ (if j == k then some v else get j m)
  unfolding get insert
  get-insert k j v [] = refl
  get-insert k j v ((i, w) ∷ m) = ground (arith, get-insert k j v m)

  pub get-insert_self : (k : ℕ) (v : V) (m : BTreeMap V) → get k (insert k v m) ≡ some v
  get-insert_self k v m = ground (arith, get-insert k k v m)

  -- `get` finds an entry of the map.
  pub get-Entries {κ} :
      (P : ℕ → V → Type κ) (k : ℕ) (m : BTreeMap V) {v : V} → get k m ≡ some v → Entries P m → P k v
  unfolding get
  get-Entries P k [] e h = ground arith
  get-Entries P k ((j, w) ∷ m) {v} e h = elim (Bool-cases (k == j)) [
    | inl same ↦
        let here : w ≡ v = ground arith in
        let at : k ≡ j = (==_iff k j).0 same in rw (at, ← here) h.0
    | inr other ↦ get-Entries P k m (ground arith) h.1
  ]

  pub Entries-adjust {κ} :
      (P : ℕ → V → Type κ) (k : ℕ) (f : V → V) (m : BTreeMap V)
      → ((v : V) → get k m ≡ some v → P k v → P k (f v))
      → Entries P m
      → Entries P (adjust k f m)
  unfolding adjust get
  Entries-adjust P k f [] g h = tt
  Entries-adjust P k f ((j, w) ∷ m) g h = elim (Bool-cases (k == j)) [
    | inl same ↦
        let at : k ≡ j = (==_iff k j).0 same in
        rw same (subst (λ i. P i (f w)) at (g w (rw same refl) (rw at h.0)), h.1)
    | inr other ↦ rw other (h.0, Entries-adjust P k f m (λ v e. g v (rw other e)) h.1)
  ]

  Above-adjust : (i k : ℕ) (f : V → V) (m : BTreeMap V) → Above i m → Above i (adjust k f m)
  Above-adjust i k f m h = Entries-adjust (λ j _. i < j) k f m (λ v e p. p) h

  pub adjust-IsSorted : (k : ℕ) (f : V → V) (m : BTreeMap V) → IsSorted m → IsSorted (adjust k f m)
  unfolding adjust
  adjust-IsSorted k f [] s = tt
  adjust-IsSorted k f ((j, w) ∷ m) s =
      ground (arith, adjust-IsSorted k f m s.1, Above-adjust j k f m s.0)

  -- The entry that `find_key` names is in the map, and passes the test.
  pub find_key-get :
      (test : V → Bool) (m : BTreeMap V) {k : ℕ}
      → IsSorted m
      → find_key test m ≡ some k
      → (v : V) × (get k m ≡ some v) × (test v ≡ true)
  unfolding find_key get
  find_key-get test [] s e = ground arith
  find_key-get test ((j, w) ∷ m) {k} s e = elim (Bool-cases (test w)) [
    | inl passes ↦ (w, ground arith, passes)
    | inr fails ↦
        let (v, found, passes) = find_key-get test m s.1 (ground arith) in
        let above : j < k = get-Entries (λ i _. j < i) k m found s.0 in (v, ground arith, passes)
  ]
