-- ===== src/Text/Utf8/RoundTrip.antt =====
-- `from_utf8` undoes the encoding.
use minidump2core.Prelude.{
  ℕ, suc, ◌+◌, ◌-◌, ◌*◌, ◌/◌, ◌%◌, ◌<◌, ◌≤◌, ◌≡◌, refl, ap, ◌∙◌, arith, Option, none, some, List,
  [], ◌∷◌, ◌++◌, All, ltb, leb, if◌then◌else◌, lt→ltb, le→ltb,
}
use mathlib.Core.Option
use native.Mathlib.Decide.{dec_lt}
use minidump2core.Text.Utf8.{
  Utf8State, between_characters, awaiting, first_byte, next_byte, utf8_step, emit, utf8_from,
  from_utf8, IsScalar, encode_char, encode,
}

next_step :
    (need value low high b : ℕ)
    → low ≤ b
    → b ≤ high
    → utf8_step (awaiting (suc (suc need)) value low high) b
      ≡ some (awaiting (suc need) (value * 64 + (b - 0x80)) 0x80 0xbf, none)
unfolding utf8_step next_byte
next_step need value low high b h k = ground arith

last_step :
    (value low high b : ℕ)
    → low ≤ b
    → b ≤ high
    → utf8_step (awaiting 1 value low high) b
      ≡ some (between_characters, some (value * 64 + (b - 0x80)))
unfolding utf8_step next_byte
last_step value low high b h k = ground arith

read_one :
    (b : ℕ) (s : Utf8State) (out : Option ℕ) (t : Utf8State) (bs : List ℕ)
    → utf8_step t b ≡ some (s, out)
    → utf8_from t (b ∷ bs) ≡ Option.map (emit out) (utf8_from s bs)
unfolding utf8_from
read_one b s out t bs h = rw (h, utf8_from) refl

map_quiet : (o : Option (List ℕ)) → Option.map (emit none) o ≡ o
map_quiet none = refl
map_quiet (some cs) = refl

-- A byte that completes no character.
read_quiet :
    (b : ℕ) (s t : Utf8State) (bs : List ℕ)
    → utf8_step t b ≡ some (s, none)
    → utf8_from t (b ∷ bs) ≡ utf8_from s bs
read_quiet b s t bs h = read_one b s none t bs h ∙ map_quiet (utf8_from s bs)

-- Behind the first byte: two more, or three more.
read_last :
    (value low high b c : ℕ) (bs : List ℕ)
    → low ≤ b
    → b ≤ high
    → value * 64 + (b - 0x80) ≡ c
    → utf8_from (awaiting 1 value low high) (b ∷ bs)
      ≡ Option.map (emit (some c)) (utf8_from between_characters bs)
read_last value low high b c bs h k e =
    read_one b between_characters (some (value * 64 + (b - 0x80))) (awaiting 1 value low high) bs
      (last_step value low high b h k)
    ∙ ap (λ d. Option.map (emit (some d)) (utf8_from between_characters bs)) e

read_two :
    (value low high b d c : ℕ) (bs : List ℕ)
    → low ≤ b
    → b ≤ high
    → 0x80 ≤ d
    → d ≤ 0xbf
    → (value * 64 + (b - 0x80)) * 64 + (d - 0x80) ≡ c
    → utf8_from (awaiting 2 value low high) (b ∷ (d ∷ bs))
      ≡ Option.map (emit (some c)) (utf8_from between_characters bs)
read_two value low high b d c bs h k i j e =
    read_quiet b (awaiting 1 (value * 64 + (b - 0x80)) 0x80 0xbf) (awaiting 2 value low high)
      (d ∷ bs) (next_step 0 value low high b h k)
    ∙ read_last (value * 64 + (b - 0x80)) 0x80 0xbf d c bs i j e

read_three :
    (value low high a b d c : ℕ) (bs : List ℕ)
    → low ≤ a
    → a ≤ high
    → 0x80 ≤ b
    → b ≤ 0xbf
    → 0x80 ≤ d
    → d ≤ 0xbf
    → ((value * 64 + (a - 0x80)) * 64 + (b - 0x80)) * 64 + (d - 0x80) ≡ c
    → utf8_from (awaiting 3 value low high) (a ∷ (b ∷ (d ∷ bs)))
      ≡ Option.map (emit (some c)) (utf8_from between_characters bs)
read_three value low high a b d c bs p q h k i j e =
    read_quiet a (awaiting 2 (value * 64 + (a - 0x80)) 0x80 0xbf) (awaiting 3 value low high)
      (b ∷ (d ∷ bs)) (next_step 1 value low high a p q)
    ∙ read_two (value * 64 + (a - 0x80)) 0x80 0xbf b d c bs h k i j e

first_one : (c : ℕ) → c < 0x80 → utf8_step between_characters c ≡ some (between_characters, some c)
unfolding utf8_step first_byte
first_one c h = ground arith

first_of_two :
    (c : ℕ)
    → 0x80 ≤ c
    → c < 0x800
    → utf8_step between_characters (0xc0 + c / 64) ≡ some (awaiting 1 (c / 64) 0x80 0xbf, none)
unfolding utf8_step first_byte
first_of_two c h k = ground arith

abbrev low_of_three : ℕ → ℕ
low_of_three c = if ltb c 0x1000 then 0xa0 else 0x80

abbrev high_of_three : ℕ → ℕ
high_of_three c = if leb 0xd000 c then (if ltb c 0xe000 then 0x9f else 0xbf) else 0xbf

first_of_three :
    (c : ℕ)
    → 0x800 ≤ c
    → c < 0x10000
    → utf8_step between_characters (0xe0 + c / 4096)
      ≡ some (awaiting 2 (c / 4096) (low_of_three c) (high_of_three c), none)
unfolding utf8_step first_byte
first_of_three c h k = ground arith

abbrev low_of_four : ℕ → ℕ
low_of_four c = if ltb c 0x40000 then 0x90 else 0x80

abbrev high_of_four : ℕ → ℕ
high_of_four c = if leb 0x100000 c then 0x8f else 0xbf

first_of_four :
    (c : ℕ)
    → 0x10000 ≤ c
    → c < 0x110000
    → utf8_step between_characters (0xf0 + c / 262144)
      ≡ some (awaiting 3 (c / 262144) (low_of_four c) (high_of_four c), none)
unfolding utf8_step first_byte
first_of_four c h k = ground arith

abbrev ReadsChar : ℕ → List ℕ → Type 0
ReadsChar c bs =
    utf8_from between_characters (encode_char c ++ bs)
    ≡ Option.map (emit (some c)) (utf8_from between_characters bs)

one_byte : (c : ℕ) (bs : List ℕ) → c < 0x80 → ReadsChar c bs
unfolding encode_char
one_byte c bs h =
    rw (lt→ltb c 0x80 h)
      (read_one c between_characters (some c) between_characters bs (first_one c h))

two_bytes : (c : ℕ) (bs : List ℕ) → 0x80 ≤ c → c < 0x800 → ReadsChar c bs
unfolding encode_char
two_bytes c bs h k = rw (le→ltb c 0x80 h) (
    rw (lt→ltb c 0x800 k) (
      read_quiet (0xc0 + c / 64) (awaiting 1 (c / 64) 0x80 0xbf) between_characters
        ((0x80 + c % 64) ∷ bs) (first_of_two c h k)
      ∙ read_last (c / 64) 0x80 0xbf (0x80 + c % 64) c bs (omega arith) (omega arith)
          (omega arith)))

three_bytes : (c : ℕ) (bs : List ℕ) → 0x800 ≤ c → c < 0x10000 → IsScalar c → ReadsChar c bs
unfolding encode_char
three_bytes c bs h k scalar =
    let second : (low_of_three c ≤ 0x80 + c / 64 % 64) × (0x80 + c / 64 % 64 ≤ high_of_three c) =
      ground arith in
    rw (le→ltb c 0x80 (omega arith)) (
      rw (le→ltb c 0x800 h) (
        rw (lt→ltb c 0x10000 k) (
          read_quiet (0xe0 + c / 4096) (awaiting 2 (c / 4096) (low_of_three c) (high_of_three c))
            between_characters ((0x80 + c / 64 % 64) ∷ ((0x80 + c % 64) ∷ bs))
            (first_of_three c h k)
          ∙ read_two (c / 4096) (low_of_three c) (high_of_three c) (0x80 + c / 64 % 64)
              (0x80 + c % 64) c bs second.0 second.1 (omega arith) (omega arith) (omega arith))))

four_bytes : (c : ℕ) (bs : List ℕ) → 0x10000 ≤ c → c < 0x110000 → ReadsChar c bs
unfolding encode_char
four_bytes c bs h k =
    let second : (low_of_four c ≤ 0x80 + c / 4096 % 64) × (0x80 + c / 4096 % 64 ≤ high_of_four c) =
      ground arith in
    rw (le→ltb c 0x80 (omega arith)) (
      rw (le→ltb c 0x800 (omega arith)) (
        rw (le→ltb c 0x10000 h) (
          read_quiet (0xf0 + c / 262144) (awaiting 3 (c / 262144) (low_of_four c) (high_of_four c))
            between_characters
            ((0x80 + c / 4096 % 64) ∷ ((0x80 + c / 64 % 64) ∷ ((0x80 + c % 64) ∷ bs)))
            (first_of_four c h k)
          ∙ read_three (c / 262144) (low_of_four c) (high_of_four c) (0x80 + c / 4096 % 64)
              (0x80 + c / 64 % 64) (0x80 + c % 64) c bs second.0 second.1 (omega arith)
              (omega arith) (omega arith) (omega arith) (omega arith))))

reads_char : (c : ℕ) (bs : List ℕ) → IsScalar c → ReadsChar c bs
reads_char c bs scalar = elim (dec_lt c 0x80) [
  | yes h ↦ one_byte c bs h
  | no h ↦ elim (dec_lt c 0x800) [
    | yes k ↦ two_bytes c bs (omega (arith, h)) k
    | no k ↦ elim (dec_lt c 0x10000) [
      | yes l ↦ three_bytes c bs (omega (arith, k)) l scalar
      | no l ↦ four_bytes c bs (omega (arith, l)) (omega (arith, l, scalar))
    ]
  ]
]

from_encode : (cs : List ℕ) → All IsScalar cs → utf8_from between_characters (encode cs) ≡ some cs
unfolding encode utf8_from
from_encode [] h = refl
from_encode (c ∷ cs) h =
    reads_char c (encode cs) h.0 ∙ ap (Option.map (emit (some c))) (from_encode cs h.1)

pub from_utf8-encode : (cs : List ℕ) → All IsScalar cs → from_utf8 (encode cs) ≡ some cs
unfolding from_utf8
from_utf8-encode cs h = from_encode cs h
