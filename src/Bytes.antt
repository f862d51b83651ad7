-- ===== src/Bytes.antt =====
-- Byte strings: what `to_le_bytes`, `from_le_bytes`, `Vec::resize` and slicing do in Rust's
-- standard library. A `u8` is a number, a `Vec<u8>` or `&[u8]` a list of numbers.
use minidump2core.Prelude.{
  sym, append_assoc, ℕ, zero, suc, ◌+◌, ◌-◌, ◌*◌, ◌/◌, ◌%◌, ◌^◌, ◌≤◌, ◌<◌, ◌≡◌, refl, ap, ◌∙◌,
  arith,
}
use minidump2core.Prelude.{
  Bool, true, false, ◌&&◌, ◌==◌, List, [], ◌∷◌, ◌++◌, length, take, drop, replicate, All,
  length-append, length-replicate, Option, none, some, leb, if◌then◌else◌, take-append, drop-append,
  length-take, length-drop,
}
use mathlib.Core.Option

abbrev pub IsByte : ℕ → Type 0
IsByte b = b < 256

abbrev pub IsU16 : ℕ → Type 0
IsU16 v = v < 2 ^ 16

abbrev pub IsU32 : ℕ → Type 0
IsU32 v = v < 2 ^ 32

abbrev pub IsU64 : ℕ → Type 0
IsU64 v = v < 2 ^ 64

-- The low `n` bytes of `v`, lowest first: `v.to_le_bytes()` for an integer of `n` bytes.
unfoldable pub le_bytes : ℕ → ℕ → List ℕ
le_bytes zero v = []
le_bytes (suc n) v = v % 256 ∷ le_bytes n (v / 256)

unfoldable pub from_le_bytes : List ℕ → ℕ
from_le_bytes [] = 0
from_le_bytes (b ∷ bs) = b + 256 * from_le_bytes bs

pub length-le_bytes : (n v : ℕ) → length (le_bytes n v) ≡ n
unfolding le_bytes
length-le_bytes zero v = refl
length-le_bytes (suc n) v = ap suc (length-le_bytes n (v / 256))

pub from-le_bytes : (n v : ℕ) → v < 256 ^ n → from_le_bytes (le_bytes n v) ≡ v
unfolding le_bytes from_le_bytes
from-le_bytes zero v h = omega arith
from-le_bytes (suc n) v h = omega (arith, from-le_bytes n (v / 256) (omega arith))

pub le_bytes-IsByte : (n v : ℕ) → All IsByte (le_bytes n v)
unfolding le_bytes
le_bytes-IsByte zero v = tt
le_bytes-IsByte (suc n) v = (omega arith, le_bytes-IsByte n (v / 256))

-- Reading `n` bytes back also inverts the other way on bytes.
pub le_bytes-from : (bs : List ℕ) → All IsByte bs → le_bytes (length bs) (from_le_bytes bs) ≡ bs
unfolding le_bytes from_le_bytes
le_bytes-from [] h = refl
le_bytes-from (b ∷ bs) h = ground (arith, le_bytes-from bs h.1, tail_eq, head_eq)
  where
    head_eq : (b + 256 * from_le_bytes bs) % 256 ≡ b
    head_eq = omega (arith, h.0)

    tail_eq : (b + 256 * from_le_bytes bs) / 256 ≡ from_le_bytes bs
    tail_eq = omega (arith, h.0)

-- `&bytes[off..off + n]`, where it is in range.
abbrev pub slice : ℕ → ℕ → List ℕ → List ℕ
slice off n bytes = take n (drop off bytes)

-- `bytes.get(off..off + n)`
abbrev pub get_slice : ℕ → ℕ → List ℕ → Option (List ℕ)
get_slice off n bytes = if leb (off + n) (length bytes) then some (slice off n bytes) else none

-- `vec.resize(n, 0)`
unfoldable pub resize : List ℕ → ℕ → List ℕ
resize bytes n = take n bytes ++ replicate (n - length bytes) 0

pub length-resize : (bytes : List ℕ) (n : ℕ) → length (resize bytes n) ≡ n
unfolding resize
length-resize bytes n = omega (
  arith,
  length-append (take n bytes) (replicate (n - length bytes) 0),
  length-take n bytes,
  length-replicate {A = ℕ} (n - length bytes) 0,
)

take_all : (n : ℕ) (bytes : List ℕ) → length bytes ≤ n → take n bytes ≡ bytes
take_all zero [] h = refl
take_all zero (x ∷ bytes) h = absurd (omega arith)
take_all (suc n) [] h = refl
take_all (suc n) (x ∷ bytes) h = ap (λ t. x ∷ t) (take_all n bytes (omega arith))

pub resize_grow :
    (bytes : List ℕ) (n : ℕ)
    → length bytes ≤ n
    → resize bytes n ≡ bytes ++ replicate (n - length bytes) 0
unfolding resize
resize_grow bytes n h = ap (λ t. t ++ replicate (n - length bytes) 0) (take_all n bytes h)

-- A slice taken between a known front and a known back.
pub slice-append :
    (off n : ℕ) (front mid back : List ℕ)
    → off ≡ length front
    → n ≡ length mid
    → slice off n (front ++ (mid ++ back)) ≡ mid
slice-append off n front mid back h k =
    ap (take n) (drop-append off front (mid ++ back) h) ∙ take-append n mid back k

-- `==` of two byte arrays.
unfoldable pub eq_bytes : List ℕ → List ℕ → Bool
eq_bytes [] [] = true
eq_bytes [] (c ∷ cs) = false
eq_bytes (b ∷ bs) [] = false
eq_bytes (b ∷ bs) (c ∷ cs) = b == c && eq_bytes bs cs

pub eq_bytes_eq : (bs cs : List ℕ) → eq_bytes bs cs ≡ true → bs ≡ cs
unfolding eq_bytes
eq_bytes_eq [] [] h = refl
eq_bytes_eq [] (c ∷ cs) h = ground arith
eq_bytes_eq (b ∷ bs) [] h = ground arith
eq_bytes_eq (b ∷ bs) (c ∷ cs) h = ground (arith, eq_bytes_eq bs cs)

-- `dst[..n].copy_from_slice(&src[..n])`, for `n` within both.
unfoldable pub copy_front : ℕ → List ℕ → List ℕ → List ℕ
copy_front n dst src = take n src ++ drop n dst

pub length-copy_front :
    (n : ℕ) (dst src : List ℕ)
    → n ≤ length dst
    → n ≤ length src
    → length (copy_front n dst src) ≡ length dst
unfolding copy_front
length-copy_front n dst src h k =
    omega (arith, length-append (take n src) (drop n dst), length-take n src, length-drop n dst)

-- `iter().position(test)`
unfoldable pub position : (ℕ → Bool) → List ℕ → Option ℕ
position test [] = none
position test (b ∷ bs) = if test b then some 0 else Option.map suc (position test bs)

-- `iter().rposition(test)`
unfoldable pub rposition : (ℕ → Bool) → List ℕ → Option ℕ
rposition test [] = none
rposition test (b ∷ bs) = elim (rposition test bs) [
  | some i ↦ some (suc i)
  | none ↦ if test b then some 0 else none
]

pub resize_nil : (n : ℕ) → resize [] n ≡ replicate n 0
resize_nil n = resize_grow [] n (omega arith) ∙ ap (λ k. replicate k 0) (omega arith)

-- `out[off..off + bytes.len()].copy_from_slice(&bytes)`, in range.
unfoldable pub write_at : ℕ → List ℕ → List ℕ → List ℕ
write_at off bytes out = take off out ++ (bytes ++ drop (off + length bytes) out)

pub write_at-append :
    (off : ℕ) (a b bytes c : List ℕ)
    → off ≡ length a
    → length bytes ≡ length b
    → write_at off bytes (a ++ (b ++ c)) ≡ a ++ (bytes ++ c)
unfolding write_at
write_at-append off a b bytes c h k = rw (take-append off a (b ++ c) h) (
    ap (λ t. a ++ (bytes ++ t))
      (ap (drop (off + length bytes)) (sym (append_assoc a b c))
        ∙ drop-append (off + length bytes) (a ++ b) c (omega (arith, h, k, length-append a b))))
