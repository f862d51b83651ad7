-- ===== src/Model/Align/Least.antt =====
-- What the alignment functions of src/model.rs compute, against the definition by multiples.
use minidump2core.Prelude.{
  lt→ltb, ltb, if◌then◌else◌, ◌==◌, ℕ, ◌+◌, ◌-◌, ◌*◌, ◌%◌, ◌/◌, ◌^◌, ◌≤◌, ◌<◌, ◌≡◌, refl, arith,
  ◌∙◌, ap, List, [], ◌++◌, length, replicate, length-append, length-replicate, append_assoc,
}
use minidump2core.Error.{ok, err, integer_overflow}
use native.Mathlib.Decide.{dec_lt}
use minidump2core.Padding.{padding, padding-lt, padding_fills, padding_none, padding_some}
use minidump2core.Bytes.{IsU64, resize, resize_grow, resize_nil}
use minidump2core.Model.Align.{align_up, align_down, padded_vec}
use native.Mathlib.Nat.{mul-le-mul_right, div-mul-le_self, div-add-mod, mod-lt, mul-mod_left}

floor_eq : (v a : ℕ) → v - v % a ≡ v / a * a
floor_eq v a = grind (arith, div-add-mod v a)

-- `align_up` finds the multiple of the alignment at or above the value that is less than one
-- alignment away: it returns it where it is below 2 ^ 64, and reports an overflow where it is not.
-- The alignment is not 0.
pub align_up_least :
    (value alignment : ℕ)
    → IsU64 value
    → 0 < alignment
    → (r : ℕ) × (align_up value alignment
        ≡ (if ltb r (2 ^ 64) then ok r else err (integer_overflow "aligned value")))
      × (r % alignment ≡ 0)
      × (value ≤ r)
      × (r < value + alignment)
unfolding align_up padding
align_up_least v a h p = (
  v + padding v a,
  ground (arith, padding_cases),
  padding_fills v a p,
  omega arith,
  omega (arith, padding-lt v a p),
)
  where
    padding_cases : padding v a ≡ (if v % a == 0 then 0 else a - v % a)
    padding_cases = ground (arith, padding_none v a, padding_some v a p)

-- Where an alignment more is left, there is no overflow.
pub align_up_fits : (v a : ℕ) → 0 < a → v + a ≤ 2 ^ 64 → (r : ℕ) × (align_up v a ≡ ok r) × (v ≤ r)
align_up_fits v a p h =
    let (r, e, _, above, near) = align_up_least v a (omega arith) p in
    (r, e ∙ rw (lt→ltb r (2 ^ 64) (omega arith)) refl, above)

multiple_of_mod : (v a : ℕ) → v % a ≡ 0 → v ≡ v / a * a
multiple_of_mod v a h = grind (arith, div-add-mod v a)

-- A multiple that is at most a number is at most the last multiple that is.
pub multiple_below : (k r v a : ℕ) → k % a ≡ 0 → r % a ≡ 0 → k ≤ v → v < r + a → k ≤ r
multiple_below k r v a hk hr low high = elim (dec_lt (r / a) (k / a)) [
  | yes more ↦
      let step : (r / a + 1) * a ≤ k / a * a = mul-le-mul_right a (omega arith) in
      absurd (grind (arith, multiple_of_mod k a hk, multiple_of_mod r a hr))
  | no less ↦
      let step : k / a * a ≤ r / a * a = mul-le-mul_right a (omega arith) in
      omega (arith, multiple_of_mod k a hk, multiple_of_mod r a hr)
]

-- `align_down` returns the multiple of the alignment at or below the value that is less than one
-- alignment away; the alignment is not 0.
pub align_down_greatest :
    (value alignment : ℕ)
    → 0 < alignment
    → (r : ℕ) × (align_down value alignment ≡ ok r)
      × (r % alignment ≡ 0)
      × (r ≤ value)
      × (value < r + alignment)
unfolding align_down
align_down_greatest v a p = (
  v / a * a,
  ground (arith, floor_eq v a),
  mul-mod_left (v / a) a,
  div-mul-le_self v a,
  grind (arith, div-add-mod v a, mod-lt v p),
)

resize_front :
    (p : ℕ) (bytes : List ℕ) (n : ℕ)
    → resize (resize [] p ++ bytes) (p + length bytes + n)
      ≡ replicate p 0 ++ (bytes ++ replicate n 0)
resize_front p bytes n = rw (resize_nil p) (
    resize_grow (replicate p 0 ++ bytes) (p + length bytes + n) (omega (arith, size))
    ∙ ap (λ k. (replicate p 0 ++ bytes) ++ replicate k 0) (omega (arith, size))
    ∙ append_assoc (replicate p 0) bytes (replicate n 0))
  where
    size : length (replicate p 0 ++ bytes) ≡ p + length bytes
    size = length-append (replicate p 0) bytes ∙ ap (λ k. k + length bytes) (length-replicate p 0)

-- `padded_vec` succeeds where the sizes fit `usize`: zeros up to the prefix length, the bytes, and
-- the fewest zeros that fill the last unit of alignment.
pub padded_vec_lem :
    (prefix_len : ℕ) (bytes : List ℕ) (alignment : ℕ)
    → 0 < alignment
    → prefix_len + length bytes + alignment ≤ 2 ^ 64
    → (n : ℕ) × (padded_vec prefix_len bytes alignment
        ≡ ok (replicate prefix_len 0 ++ (bytes ++ replicate n 0)))
      × (n < alignment)
      × ((prefix_len + length bytes + n) % alignment ≡ 0)
unfolding padded_vec padding
padded_vec_lem p bytes a ha fits =
    let n = padding (p + length bytes) a in
    (
      n,
      ground (arith, padding-lt (p + length bytes) a ha, resize_front p bytes n),
      padding-lt (p + length bytes) a ha,
      padding_fills (p + length bytes) a ha,
    )
