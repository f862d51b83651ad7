-- ===== src/Text/Hex/RoundTrip.antt =====
-- A number that is printed in hexadecimal is read back.
use minidump2core.Prelude.{
  All-append, ℕ, zero, suc, ◌+◌, ◌*◌, ◌/◌, ◌%◌, ◌^◌, ◌<◌, ◌≤◌, ◌≡◌, refl, ap, sym, ◌∙◌, arith, some,
  List, [], ◌∷◌, ◌++◌, ◌==◌, append_assoc, append-nil, All, false, lt→ltb, ◌⊎◌,
}
use minidump2core.Text.Hex.{digit_value, hex_digits, from_hex, lower_digit, lower_hex}

digit_value-lower : (d : ℕ) → d < 16 → digit_value (lower_digit d) ≡ some d
unfolding digit_value lower_digit
digit_value-lower d h = ground arith

hex_digits-step :
    (acc d : ℕ) (cs : List ℕ)
    → d < 16
    → acc * 16 + d < 2 ^ 64
    → hex_digits acc (lower_digit d ∷ cs) ≡ hex_digits (acc * 16 + d) cs
unfolding hex_digits
hex_digits-step acc d cs h k =
    rw (digit_value-lower d h, hex_digits) (rw (lt→ltb (acc * 16 + d) (2 ^ 64) k, hex_digits) refl)

hex_digits-lower :
    (k v : ℕ) (rest : List ℕ)
    → v < 16 ^ k
    → v < 2 ^ 64
    → hex_digits 0 (lower_hex k v ++ rest) ≡ hex_digits v rest
unfolding lower_hex
hex_digits-lower zero v rest h b = ap (λ n. hex_digits n rest) (omega arith)
hex_digits-lower (suc k) v rest h b =
    ap (hex_digits 0) (append_assoc (lower_hex k (v / 16)) (lower_digit (v % 16) ∷ []) rest)
    ∙ hex_digits-lower k (v / 16) (lower_digit (v % 16) ∷ rest) (omega arith) (omega arith)
    ∙ hex_digits-step (v / 16) (v % 16) rest (omega arith) (omega arith)
    ∙ ap (λ n. hex_digits n rest) (omega arith)

from_hex-digits :
    (c : ℕ) (cs : List ℕ) → (c == 0x2b) ≡ false → from_hex (c ∷ cs) ≡ hex_digits 0 (c ∷ cs)
unfolding from_hex
from_hex-digits c [] h = rw h refl
from_hex-digits c (d ∷ cs) h = rw h refl

-- What a lower-case digit is not.
abbrev pub IsDigit : ℕ → Type 0
IsDigit c = ((0x30 ≤ c) × (c ≤ 0x39)) ⊎ ((0x61 ≤ c) × (c ≤ 0x66))

lower_digit-IsDigit : (d : ℕ) → d < 16 → IsDigit (lower_digit d)
unfolding lower_digit
lower_digit-IsDigit d h = ground arith

pub lower_hex-IsDigit : (k v : ℕ) → All IsDigit (lower_hex k v)
unfolding lower_hex
lower_hex-IsDigit zero v = tt
lower_hex-IsDigit (suc k) v =
    All-append IsDigit (lower_hex k (v / 16)) (lower_digit (v % 16) ∷ [])
      (lower_hex-IsDigit k (v / 16)) (lower_digit-IsDigit (v % 16) (omega arith), tt)

-- It starts with a digit.
pub lower_hex-cons :
    (k v : ℕ) → (c : ℕ) × (cs : List ℕ) × (lower_hex (suc k) v ≡ c ∷ cs) × IsDigit c
unfolding lower_hex
lower_hex-cons zero v = (lower_digit (v % 16), [], refl, lower_digit-IsDigit (v % 16) (omega arith))
lower_hex-cons (suc k) v =
    let (c, cs, e, d) = lower_hex-cons k (v / 16) in
    (c, cs ++ (lower_digit (v % 16) ∷ []), ap (λ t. t ++ (lower_digit (v % 16) ∷ [])) e, d)

pub from-lower_hex :
    (k v : ℕ) → v < 16 ^ suc k → v < 2 ^ 64 → from_hex (lower_hex (suc k) v) ≡ some v
unfolding hex_digits
from-lower_hex k v h b =
    let (c, cs, e, d) = lower_hex-cons k v in
    ap from_hex e
    ∙ from_hex-digits c cs (ground arith)
    ∙ ap (hex_digits 0) (sym e)
    ∙ ap (hex_digits 0) (sym (append-nil (lower_hex (suc k) v)))
    ∙ hex_digits-lower (suc k) v [] h b
