-- ===== src/Prelude/Options.antt =====
-- `?` in a function that returns `Option`.
use mathlib.Core.Path.{◌≡◌, refl, ap, ◌∙◌}
use mathlib.Core.Option.{Option, none, some}
use native.Mathlib.Omega.{arith}

infixl 5 ◌>>?◌
abbrev pub ◌>>?◌ {ℓ κ} : {V : Type ℓ} {W : Type κ} → Option V → (V → Option W) → Option W
none >>? next = none
some value >>? next = next value

module _ {ℓ κ} {V : Type ℓ} {W : Type κ} where
  -- A result shows that both parts had one.
  pub >>?-eq-some :
      (found : Option V) (next : V → Option W) {last : W}
      → (found >>? next) ≡ some last
      → (value : V) × (found ≡ some value) × (next value ≡ some last)
  >>?-eq-some none next done = ground arith
  >>?-eq-some (some value) next done = (value, refl, done)

  -- A result of the first part is handed on.
  pub >>?-some :
      (found : Option V) (next : V → Option W) {value : V} {last : Option W}
      → found ≡ some value
      → next value ≡ last
      → (found >>? next) ≡ last
  >>?-some none next e f = absurd (ground arith)
  >>?-some (some v) next {value} e f = let same : v ≡ value = ground arith in ap next same ∙ f
