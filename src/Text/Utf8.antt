-- ===== src/Text/Utf8.antt =====
-- `std::str::from_utf8`, which refuses surrogates, longer encodings than needed and what lies beyond
-- U+10FFFF, and the encoding of characters.
pub mod RoundTrip
use minidump2core.Prelude.{
  ℕ, ◌+◌, ◌-◌, ◌*◌, ◌/◌, ◌%◌, ◌<◌, ◌≤◌, ◌⊎◌, ◌&&◌, Option, none, some, List, [], ◌∷◌, ◌++◌, ltb,
  leb, ◌==◌, if◌then◌else◌,
}
use mathlib.Core.Option

-- Between two bytes: how many are to come, the bits so far, and the range of the next byte.
pub record Utf8State : Type 0 where
  pub need : ℕ
  pub value : ℕ
  pub low : ℕ
  pub high : ℕ

abbrev pub between_characters : Utf8State
between_characters = record { need = 0; value = 0; low = 0x80; high = 0xbf }

abbrev pub awaiting : ℕ → ℕ → ℕ → ℕ → Utf8State
awaiting need value low high = record { need = need; value = value; low = low; high = high }

-- The first byte of a character, and a character where it is ready.
unfoldable pub first_byte : ℕ → Option (Utf8State × Option ℕ)
first_byte b =
    if ltb b 0x80
    then some (between_characters, some b)
    else (if ltb b 0xc2
        then none
        else (if ltb b 0xe0
            then some (awaiting 1 (b - 0xc0) 0x80 0xbf, none)
            else (if ltb b 0xf0
                then some (
                  awaiting 2 (b - 0xe0) (if b == 0xe0 then 0xa0 else 0x80)
                      (if b == 0xed then 0x9f else 0xbf),
                  none,
                )
                else (if ltb b 0xf5
                    then some (
                      awaiting 3 (b - 0xf0) (if b == 0xf0 then 0x90 else 0x80)
                          (if b == 0xf4 then 0x8f else 0xbf),
                      none,
                    )
                    else none))))

-- A byte behind the first, with `need` more behind it.
unfoldable pub next_byte : ℕ → Utf8State → ℕ → Option (Utf8State × Option ℕ)
next_byte need s b =
    if leb s.low b && leb b s.high
    then (if need == 0
        then some (between_characters, some (s.value * 64 + (b - 0x80)))
        else some (awaiting need (s.value * 64 + (b - 0x80)) 0x80 0xbf, none))
    else none

unfoldable pub utf8_step : Utf8State → ℕ → Option (Utf8State × Option ℕ)
unfolding first_byte next_byte
utf8_step s b = if s.need == 0 then first_byte b else next_byte (s.need - 1) s b

abbrev pub emit : Option ℕ → List ℕ → List ℕ
emit none cs = cs
emit (some c) cs = c ∷ cs

unfoldable pub utf8_from : Utf8State → List ℕ → Option (List ℕ)
utf8_from s [] = if s.need == 0 then some [] else none
utf8_from s (b ∷ bs) = elim (utf8_step s b) [
  | none ↦ none
  | some (s', out) ↦ Option.map (emit out) (utf8_from s' bs)
]

unfoldable pub from_utf8 : List ℕ → Option (List ℕ)
unfolding utf8_from
from_utf8 bytes = utf8_from between_characters bytes

-- A `char`.
abbrev pub IsScalar : ℕ → Type 0
IsScalar c = (c < 0xd800) ⊎ ((0xe000 ≤ c) × (c < 0x110000))

unfoldable pub encode_char : ℕ → List ℕ
encode_char c =
    if ltb c 0x80
    then c ∷ []
    else (if ltb c 0x800
        then (0xc0 + c / 64) ∷ (0x80 + c % 64) ∷ []
        else (if ltb c 0x10000
            then (0xe0 + c / 4096) ∷ (0x80 + c / 64 % 64) ∷ (0x80 + c % 64) ∷ []
            else (0xf0 + c / 262144)
              ∷ (0x80 + c / 4096 % 64)
              ∷ (0x80 + c / 64 % 64)
              ∷ (0x80 + c % 64)
              ∷ []))

-- `as_bytes()` of a text.
unfoldable pub encode : List ℕ → List ℕ
encode [] = []
encode (c ∷ cs) = encode_char c ++ encode cs
