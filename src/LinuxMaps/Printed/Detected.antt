-- ===== src/LinuxMaps/Printed/Detected.antt =====
-- `looks_like_linux_maps` on maps text and on an auxiliary vector.
use minidump2core.Prelude.{
  All-append, All-mono, ℕ, zero, suc, ◌/◌, ◌%◌, ◌<◌, ◌≤◌, ◌≡◌, refl, ◌∙◌, arith, true, false, List,
  [], ◌∷◌, ◌++◌, All, length, take, length-append, inl, inr,
}
use minidump2core.Bytes.{le_bytes}
use minidump2core.Text.Hex.{lower_hex, lower_digit}
use minidump2core.Text.Hex.RoundTrip.{IsDigit, lower_hex-IsDigit}
use minidump2core.LinuxMaps.{dash, all, is_range_byte, looks_like_linux_maps}

digit-is_range_byte : (c : ℕ) → IsDigit c → is_range_byte c ≡ true
unfolding is_range_byte
digit-is_range_byte c (inl h) = ground arith
digit-is_range_byte c (inr h) = ground arith

abbrev RangeByte : ℕ → Type 0
RangeByte b = is_range_byte b ≡ true

all-take :
    (n : ℕ) (xs rest : List ℕ)
    → n ≤ length xs
    → All RangeByte xs
    → all is_range_byte (take n (xs ++ rest)) ≡ true
unfolding all
all-take zero xs rest h k = refl
all-take (suc n) [] rest h k = absurd (omega arith)
all-take (suc n) (x ∷ xs) rest h k = rw k.0 (all-take n xs rest (omega arith) k.1)

length-lower_hex : (k v : ℕ) → length (lower_hex k v) ≡ k
unfolding lower_hex
length-lower_hex zero v = refl
length-lower_hex (suc k) v =
    length-append (lower_hex k (v / 16)) (lower_digit (v % 16) ∷ [])
    ∙ omega (arith, length-lower_hex k (v / 16))

looks_like_linux_maps-front :
    (xs rest : List ℕ)
    → All RangeByte xs
    → 17 ≤ length xs
    → 0 < length rest
    → looks_like_linux_maps (xs ++ rest) ≡ true
unfolding looks_like_linux_maps
looks_like_linux_maps-front xs rest h k l =
    ground (arith, all-take 17 xs rest k h, length-append xs rest)

maps_range :
    (k j start end_address : ℕ) (rest : List ℕ)
    → 8 ≤ k
    → 8 ≤ j
    → 0 < length rest
    → looks_like_linux_maps ((lower_hex k start ++ (dash ∷ lower_hex j end_address)) ++ rest) ≡ true
unfolding is_range_byte
maps_range k j start end_address rest h l m =
    looks_like_linux_maps-front (lower_hex k start ++ (dash ∷ lower_hex j end_address)) rest
      (All-append RangeByte (lower_hex k start) (dash ∷ lower_hex j end_address)
        (All-mono IsDigit RangeByte digit-is_range_byte (lower_hex k start)
          (lower_hex-IsDigit k start))
        (
          refl,
          All-mono IsDigit RangeByte digit-is_range_byte (lower_hex j end_address)
              (lower_hex-IsDigit j end_address),
        ))
      (omega (
        arith,
        length-append (lower_hex k start) (dash ∷ lower_hex j end_address),
        length-lower_hex k start,
        length-lower_hex j end_address,
      ))
      m

-- The second byte of a tag below 256 is 0.
auxv_tag :
    (w tag : ℕ) (rest : List ℕ)
    → tag < 256
    → looks_like_linux_maps (le_bytes (suc (suc w)) tag ++ rest) ≡ false
unfolding looks_like_linux_maps le_bytes all is_range_byte
auxv_tag w tag rest h = let second : tag / 256 % 256 ≡ 0 = omega arith in ground (arith, second)

-- A buffer whose text starts with a range of addresses of eight digits or more and goes on behind it
-- is taken for maps, and one that starts with the tag of an auxiliary vector (below 256, in words of
-- two bytes or more) is not.
pub looks_like_linux_maps_lem :
    (k j start end_address w tag : ℕ) (rest : List ℕ)
    → 8 ≤ k
    → 8 ≤ j
    → 0 < length rest
    → tag < 256
    → (looks_like_linux_maps ((lower_hex k start ++ (dash ∷ lower_hex j end_address)) ++ rest)
        ≡ true)
      × (looks_like_linux_maps (le_bytes (suc (suc w)) tag ++ rest) ≡ false)
looks_like_linux_maps_lem k j start end_address w tag rest h l m t =
    (maps_range k j start end_address rest h l m, auxv_tag w tag rest t)
