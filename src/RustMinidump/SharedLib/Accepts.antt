-- ===== src/RustMinidump/SharedLib/Accepts.antt =====
-- The names that `looks_like_shared_lib` accepts.
use minidump2core.Prelude.{
  ℕ, zero, suc, ◌<◌, ◌≤◌, ◌≡◌, refl, ap, sym, ◌∙◌, ◌↔◌, ◌≢◌, arith, inl, inr, Bool, true, false,
  Option, none, some, List, [], ◌∷◌, ◌++◌, length, take, drop, ◌==◌, All, Bool-cases, Option-cases,
  length-append, length-take, take-append, ==_iff,
}
use mathlib.Core.Path.{subst}
use mathlib.Core.Option
use minidump2core.Bytes.{eq_bytes, eq_bytes_eq, rposition}
use minidump2core.RustMinidump.SharedLib.{
  dot, is_dot, so_bytes, all_digits, shared_lib_loop, looks_like_shared_lib,
}

abbrev pub IsAsciiDigit : ℕ → Type 0
IsAsciiDigit b = (0x30 ≤ b) × (b ≤ 0x39)

-- `.so` at the end, or that and version numbers behind it, each behind a dot.
pub data IsSharedLibName : List ℕ → Type 0 where
  plain : (stem : List ℕ) {name : List ℕ} → name ≡ stem ++ (dot ∷ so_bytes) → IsSharedLibName name
  versioned :
      (front digits : List ℕ) {name : List ℕ}
      → IsSharedLibName front
      → All IsAsciiDigit digits
      → name ≡ front ++ (dot ∷ digits)
      → IsSharedLibName name

all_digits-All : (bs : List ℕ) → all_digits bs ≡ true → All IsAsciiDigit bs
unfolding all_digits
all_digits-All [] h = tt
all_digits-All (b ∷ bs) h = (ground arith, all_digits-All bs (ground arith))

All-all_digits : (bs : List ℕ) → All IsAsciiDigit bs → all_digits bs ≡ true
unfolding all_digits
All-all_digits [] h = refl
All-all_digits (b ∷ bs) h = ground (arith, h.0, All-all_digits bs h.1)

-- The last dot splits the bytes.
rposition-split :
    (bs : List ℕ) (pos : ℕ)
    → rposition is_dot bs ≡ some pos
    → (pos < length bs) × (bs ≡ take pos bs ++ (dot ∷ drop (suc pos) bs))
unfolding rposition
rposition-split [] pos h = absurd (ground arith)
rposition-split (b ∷ bs) pos h = elim (Option-cases (rposition is_dot bs)) [
  | inl n ↦ at_front (ground (arith, n))
  | inr (i, s) ↦
      let later = rposition-split bs i s in
      let here : pos ≡ suc i = ground (arith, s) in
      subst
        (λ p. (p < suc (length bs)) × ((b ∷ bs) ≡ take p (b ∷ bs) ++ (dot ∷ drop (suc p) (b ∷ bs))))
        (sym here) (omega (arith, later.0), ap (λ t. b ∷ t) later.1)
]
  where
    at_front :
        ((b == dot) ≡ true) × (pos ≡ 0)
        → (pos < suc (length bs))
          × ((b ∷ bs) ≡ take pos (b ∷ bs) ++ (dot ∷ drop (suc pos) (b ∷ bs)))
    at_front (d, p) =
        subst
          (λ q.
            (q < suc (length bs)) × ((b ∷ bs) ≡ take q (b ∷ bs) ++ (dot ∷ drop (suc q) (b ∷ bs))))
          (sym p) (omega arith, ap (λ c. c ∷ bs) ((==_iff b dot).0 d))

-- No dot behind: the dot is the last.
rposition-no_dot : (bs : List ℕ) → All (λ b. b ≢ dot) bs → rposition is_dot bs ≡ none
unfolding rposition
rposition-no_dot [] h = refl
rposition-no_dot (b ∷ bs) h = ground (arith, h.0, rposition-no_dot bs h.1)

rposition-append :
    (xs ys : List ℕ)
    → All (λ b. b ≢ dot) ys
    → rposition is_dot (xs ++ (dot ∷ ys)) ≡ some (length xs)
unfolding rposition
rposition-append [] ys h = rw (rposition-no_dot ys h) refl
rposition-append (x ∷ xs) ys h = rw (rposition-append xs ys h) refl

digits_no_dot : (ds : List ℕ) → All IsAsciiDigit ds → All (λ b. b ≢ dot) ds
digits_no_dot [] h = tt
digits_no_dot (d ∷ ds) h = (λ e. omega (arith, e, h.0), digits_no_dot ds h.1)

loop_true : (fuel : ℕ) (bs : List ℕ) → shared_lib_loop fuel bs ≡ some true → IsSharedLibName bs
unfolding shared_lib_loop
loop_true zero bs h = absurd (ground arith)
loop_true (suc fuel) bs h = elim (Option-cases (rposition is_dot bs)) [
  | inl n ↦ absurd (ground (arith, n))
  | inr (pos, s) ↦
      let split = rposition-split bs pos s in
      elim (Bool-cases (eq_bytes (drop (suc pos) bs) so_bytes)) [
        | inl t ↦ plain (take pos bs) (
            split.1
            ∙ ap (λ t. take pos bs ++ (dot ∷ t)) (eq_bytes_eq (drop (suc pos) bs) so_bytes t))
        | inr f ↦ elim (Bool-cases (all_digits (drop (suc pos) bs))) [
          | inl d ↦
              versioned (take pos bs) (drop (suc pos) bs)
                (loop_true fuel (take pos bs) (ground (arith, s, f, d)))
                (all_digits-All (drop (suc pos) bs) d) split.1
          | inr d ↦ absurd (ground (arith, s, f, d))
        ]
      ]
]

drop_behind : (xs ys : List ℕ) → drop (suc (length xs)) (xs ++ (dot ∷ ys)) ≡ ys
drop_behind [] ys = refl
drop_behind (x ∷ xs) ys = drop_behind xs ys

digits_not_so : (ds : List ℕ) → All IsAsciiDigit ds → eq_bytes ds so_bytes ≡ false
unfolding eq_bytes
digits_not_so [] h = refl
digits_not_so (d ∷ ds) h = ground (arith, h.0)

loop_accepts :
    (fuel : ℕ) (name : List ℕ)
    → IsSharedLibName name
    → length name < fuel
    → shared_lib_loop fuel name ≡ some true
unfolding shared_lib_loop eq_bytes all_digits
loop_accepts zero name h k = absurd (omega arith)
loop_accepts (suc fuel) name (plain stem e) k =
    ap (shared_lib_loop (suc fuel)) e
    ∙ rw (rposition-append stem so_bytes (omega arith), shared_lib_loop)
        (rw (drop_behind stem so_bytes) refl)
loop_accepts (suc fuel) name (versioned front digits h d e) k =
    let shorter : length front < fuel =
      omega (arith, k, ap length e, length-append front (dot ∷ digits)) in
    ap (shared_lib_loop (suc fuel)) e
    ∙ rw (rposition-append front digits (digits_no_dot digits d), shared_lib_loop)
        (rw (drop_behind front digits) (
          rw (digits_not_so digits d) (
            rw (All-all_digits digits d) (
              rw (take-append (length front) front (dot ∷ digits) refl)
                (loop_accepts fuel front h shorter)))))

-- The loop ends: each round leaves fewer bytes than the last.
pub shared_lib_loop-returns :
    (fuel : ℕ) (bs : List ℕ)
    → length bs < fuel
    → (answer : Bool) × (shared_lib_loop fuel bs ≡ some answer)
unfolding shared_lib_loop
shared_lib_loop-returns zero bs h = absurd (omega arith)
shared_lib_loop-returns (suc fuel) bs h = elim (Option-cases (rposition is_dot bs)) [
  | inl n ↦ (false, ground (arith, n))
  | inr (pos, s) ↦
      let split = rposition-split bs pos s in
      let (answer, later) =
        shared_lib_loop-returns fuel (take pos bs) (omega (arith, split.0, length-take pos bs)) in
      elim (Bool-cases (eq_bytes (drop (suc pos) bs) so_bytes)) [
        | inl t ↦ (true, ground (arith, s, t))
        | inr f ↦ elim (Bool-cases (all_digits (drop (suc pos) bs))) [
          | inl d ↦ (answer, ground (arith, s, f, d, later))
          | inr d ↦ (false, ground (arith, s, f, d))
        ]
      ]
]

accepted : (name : List ℕ) → looks_like_shared_lib name ≡ true → IsSharedLibName name
unfolding looks_like_shared_lib
accepted name h =
    let (answer, e) = shared_lib_loop-returns (suc (length name)) name (omega arith) in
    loop_true (suc (length name)) name
      (e ∙ ap some (sym (ap (λ (o : Option Bool). Option.get_or o false) e) ∙ h))

accepts : (name : List ℕ) → IsSharedLibName name → looks_like_shared_lib name ≡ true
unfolding looks_like_shared_lib
accepts name h =
    ap (λ (o : Option Bool). Option.get_or o false)
      (loop_accepts (suc (length name)) name h (omega arith))

-- The loop of `looks_like_shared_lib` ends within one round more than the name has bytes, and it
-- answers true for exactly the names that end in `.so`, or in `.so` and any number of versions behind
-- it, each a dot and decimal digits (none at all included).
pub looks_like_shared_lib_lem :
    (name : List ℕ)
    → ((answer : Bool) × (shared_lib_loop (suc (length name)) name ≡ some answer))
      × ((looks_like_shared_lib name ≡ true) ↔ IsSharedLibName name)
looks_like_shared_lib_lem name =
    (shared_lib_loop-returns (suc (length name)) name (omega arith), (accepted name, accepts name))
