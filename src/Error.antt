-- ===== src/Error.antt =====
-- The error type of error.rs, and `Result` over it. The payloads that belong to other crates
-- (`minidump::Error`, `std::io::Error`) are their `Debug` text, by which the source compares errors.
-- `panic` is no value in Rust: the call ends there (a failed `expect`, a slice out of range).
use minidump2core.Prelude.{
  ℕ, ◌≡◌, refl, Bool, List, String, Option, none, some, arith, if◌then◌else◌,
}

pub data Md2CoreError : Type 0 where
  range_out_of_bounds : ℕ → ℕ → ℕ → Md2CoreError
  integer_overflow : String → Md2CoreError
  invalid_address_range : ℕ → ℕ → Md2CoreError
  invalid_alignment : Md2CoreError
  invalid_utf8 : String → Md2CoreError
  invalid_maps_line : List ℕ → Md2CoreError
  missing_field : String → Md2CoreError
  invalid_state : String → Md2CoreError
  minidump_read : List ℕ → Md2CoreError
  unsupported_system : List ℕ → List ℕ → Md2CoreError
  context_mismatch : String → String → Md2CoreError
  io : List ℕ → Md2CoreError
  serialize : List ℕ → Md2CoreError

pub data Result {ℓ} (A : Type ℓ) : Type ℓ where
  ok : A → Result A
  err : Md2CoreError → Result A
  panic : String → Result A

-- `Option::ok_or`
abbrev pub ok_or {ℓ} : {A : Type ℓ} → Option A → Md2CoreError → Result A
ok_or (some value) failure = ok value
ok_or none failure = err failure

-- `if test { return Err(e) }`
abbrev pub fail_if : Bool → Md2CoreError → Result (Unit {0})
fail_if test failure = if test then err failure else ok tt

-- `?`: what follows is run on the value, and anything else is passed on.
infixl 5 ◌>>=◌
abbrev pub ◌>>=◌ {ℓ κ} : {V : Type ℓ} {W : Type κ} → Result V → (V → Result W) → Result W
panic message >>= next = panic message
err failure >>= next = err failure
ok value >>= next = next value

-- The same after a call that returns `()`.
infixl 5 ◌>>◌
abbrev pub ◌>>◌ {κ} : {W : Type κ} → Result (Unit {0}) → Result W → Result W
panic message >> later = panic message
err failure >> later = err failure
ok unit >> later = later

pub ok-injective {ℓ} : {A : Type ℓ} {a b : A} → ok a ≡ ok b → a ≡ b
ok-injective e = cc

module _ {ℓ κ} {V : Type ℓ} {W : Type κ} where
  -- A call that succeeds as a whole succeeds in both parts.
  pub >>=-eq-ok :
      (action : Result V) (next : V → Result W) {last : W}
      → (action >>= next) ≡ ok last
      → (value : V) × (action ≡ ok value) × (next value ≡ ok last)
  >>=-eq-ok (panic message) next done = ground arith
  >>=-eq-ok (err failure) next done = ground arith
  >>=-eq-ok (ok value) next done = (value, refl, done)
