-- ===== src/Model/Align.antt =====
-- `align_up`, `align_down` and `padded_vec` of src/model.rs. A `u64` is a number below 2 ^ 64, and
-- `usize` is taken to have 64 bits, so that `usize::try_from` of a `u64` succeeds.
pub mod Least
use minidump2core.Prelude.{
  ℕ, ◌+◌, ◌-◌, ◌%◌, ◌^◌, Option, none, some, List, [], ◌++◌, length, ltb, ◌==◌, if◌then◌else◌,
}
use minidump2core.Error.{
  Result, ok, err, ◌>>=◌, ◌>>◌, ok_or, fail_if, invalid_alignment, integer_overflow,
}
use minidump2core.Bytes.{resize}

-- `u64::checked_add`, and `usize::checked_add`.
abbrev pub checked_add : ℕ → ℕ → Option ℕ
checked_add a b = if ltb (a + b) (2 ^ 64) then some (a + b) else none

unfoldable pub align_up : ℕ → ℕ → Result ℕ
align_up value alignment = do
  fail_if (alignment == 0) invalid_alignment
  let remainder = value % alignment
  if remainder == 0
      then ok value
      else ok_or (checked_add value (alignment - remainder)) (integer_overflow "aligned value")

unfoldable pub align_down : ℕ → ℕ → Result ℕ
align_down value alignment = do
  fail_if (alignment == 0) invalid_alignment
  ok (value - value % alignment)

unfoldable pub padded_vec : ℕ → List ℕ → ℕ → Result (List ℕ)
padded_vec prefix_len bytes alignment = do
  fail_if (alignment == 0) invalid_alignment
  initial_len ←
      ok_or (checked_add prefix_len (length bytes)) (integer_overflow "padded data length")
  let padding = (alignment - initial_len % alignment) % alignment
  final_len ← ok_or (checked_add initial_len padding) (integer_overflow "padded data length")
  ok (resize (resize [] prefix_len ++ bytes) final_len)
