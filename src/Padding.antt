-- ===== src/Padding.antt =====
-- The number of bytes from a length to the next multiple of an alignment, as plain arithmetic.
use minidump2core.Prelude.{ℕ, ◌+◌, ◌-◌, ◌*◌, ◌/◌, ◌%◌, ◌<◌, ◌≡◌, ◌≢◌, ap, ◌∙◌, arith}
use native.Mathlib.Nat.{
  sub-zero, mod_self, mod-eq_of_lt, add-mod-mod, div-add-mod, mod-lt, mul-mod_left,
}

unfoldable pub padding : ℕ → ℕ → ℕ
padding v a = (a - v % a) % a

pub next_multiple : (v a : ℕ) → 0 < a → v + (a - v % a) ≡ (v / a + 1) * a
next_multiple v a h = grind (arith, div-add-mod v a, mod-lt v h)

pub padding-lt : (v a : ℕ) → 0 < a → padding v a < a
unfolding padding
padding-lt v a p = mod-lt (a - v % a) p

pub padding_fills : (v a : ℕ) → 0 < a → (v + padding v a) % a ≡ 0
unfolding padding
padding_fills v a p =
    add-mod-mod v (a - v % a) a ∙ ap (λ t. t % a) (next_multiple v a p) ∙ mul-mod_left (v / a + 1) a

pub padding_none : (v a : ℕ) → v % a ≡ 0 → padding v a ≡ 0
unfolding padding
padding_none v a h = rw h (ap (λ t. t % a) (sub-zero a) ∙ mod_self a)

pub padding_some : (v a : ℕ) → 0 < a → v % a ≢ 0 → padding v a ≡ a - v % a
unfolding padding
padding_some v a p h = mod-eq_of_lt (omega arith)
