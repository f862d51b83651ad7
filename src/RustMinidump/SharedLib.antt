-- ===== src/RustMinidump/SharedLib.antt =====
-- `looks_like_shared_lib` of src/rust_minidump.rs.
pub mod Accepts
use minidump2core.Prelude.{
  ℕ, zero, suc, Bool, true, false, ◌&&◌, Option, none, some, List, [], ◌∷◌, length, take, drop, leb,
  ◌==◌, if◌then◌else◌,
}
use minidump2core.Bytes.{eq_bytes, rposition}
use mathlib.Core.Option

abbrev pub dot : ℕ
dot = 0x2e

abbrev pub is_dot : ℕ → Bool
is_dot b = b == dot

-- `b"so"`
abbrev pub so_bytes : List ℕ
so_bytes = b's' ∷ (b'o' ∷ [])

-- `iter().all(u8::is_ascii_digit)`
unfoldable pub all_digits : List ℕ → Bool
all_digits [] = true
all_digits (b ∷ bs) = (leb 0x30 b && leb b 0x39) && all_digits bs

-- The loop on `bytes[..i]`, with fuel: `none` where it runs out.
unfoldable pub shared_lib_loop : ℕ → List ℕ → Option Bool
unfolding all_digits rposition eq_bytes
shared_lib_loop zero bytes = none
shared_lib_loop (suc fuel) bytes = elim (rposition is_dot bytes) [
  | none ↦ some false
  | some pos ↦
      let rest = shared_lib_loop fuel (take pos bytes) in
      if eq_bytes (drop (suc pos) bytes) so_bytes
      then some true
      else (if all_digits (drop (suc pos) bytes) then rest else some false)
]

unfoldable pub looks_like_shared_lib : List ℕ → Bool
unfolding shared_lib_loop
looks_like_shared_lib bytes = Option.get_or (shared_lib_loop (suc (length bytes)) bytes) false
