-- ===== src/Text/Hex.antt =====
-- `u64::from_str_radix(text, 16)`, and the digits that `{:x}` and `{:X}` print.
pub mod RoundTrip
use minidump2core.Prelude.{
  ℕ, zero, suc, ◌+◌, ◌-◌, ◌*◌, ◌/◌, ◌%◌, ◌^◌, ◌&&◌, Option, none, some, List, [], ◌∷◌, ◌++◌, ltb,
  leb, ◌==◌, if◌then◌else◌,
}

-- `to_digit(16)`
unfoldable pub digit_value : ℕ → Option ℕ
digit_value c =
    if leb 0x30 c && leb c 0x39
    then some (c - 0x30)
    else (if leb 0x41 c && leb c 0x46
        then some (c - 0x37)
        else (if leb 0x61 c && leb c 0x66 then some (c - 0x57) else none))

-- The digits behind the number read so far, which must stay below 2 ^ 64.
unfoldable pub hex_digits : ℕ → List ℕ → Option ℕ
hex_digits acc [] = some acc
hex_digits acc (c ∷ cs) = elim (digit_value c) [
  | none ↦ none
  | some d ↦ if ltb (acc * 16 + d) (2 ^ 64) then hex_digits (acc * 16 + d) cs else none
]

abbrev plus : ℕ
plus = 0x2b

-- A sign alone is no number; a `-` in front is no digit.
unfoldable pub from_hex : List ℕ → Option ℕ
unfolding hex_digits
from_hex [] = none
from_hex (c ∷ []) = if c == plus then none else hex_digits 0 (c ∷ [])
from_hex (c ∷ (d ∷ cs)) = if c == plus then hex_digits 0 (d ∷ cs) else hex_digits 0 (c ∷ (d ∷ cs))

unfoldable pub lower_digit : ℕ → ℕ
lower_digit d = if ltb d 10 then 0x30 + d else 0x57 + d

unfoldable pub upper_digit : ℕ → ℕ
upper_digit d = if ltb d 10 then 0x30 + d else 0x37 + d

-- The last `k` digits of `v`.
unfoldable pub lower_hex : ℕ → ℕ → List ℕ
unfolding lower_digit
lower_hex zero v = []
lower_hex (suc k) v = lower_hex k (v / 16) ++ (lower_digit (v % 16) ∷ [])

unfoldable pub upper_hex : ℕ → ℕ → List ℕ
unfolding upper_digit
upper_hex zero v = []
upper_hex (suc k) v = upper_hex k (v / 16) ++ (upper_digit (v % 16) ∷ [])
