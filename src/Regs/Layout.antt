-- ===== src/Regs/Layout.antt =====
-- The register bytes of src/regs.rs as arrays of words, in the order of the kernel's structures.
pub mod Mips
pub mod Fxsave
use minidump2core.Prelude.{
  ℕ, zero, suc, ◌+◌, ◌*◌, ◌%◌, ◌^◌, ◌<◌, ◌≡◌, refl, ap, sym, ◌∙◌, arith, List, [], ◌∷◌, ◌++◌,
  length, take, drop, take-append, drop-append, length-append, append-nil, append_assoc, All,
  replicate, String,
}
use minidump2core.Error.{Result, ok, err, context_mismatch}
use minidump2core.Bytes.{le_bytes, from_le_bytes, from-le_bytes, length-le_bytes}
use minidump2core.Regs.{push_values}

-- The bytes of an array of words, and the reader of one.
unfoldable pub flat : ℕ → List ℕ → List ℕ
flat n [] = []
flat n (v ∷ vs) = le_bytes n v ++ flat n vs

unfoldable pub read_array : ℕ → ℕ → List ℕ → List ℕ
read_array n zero bytes = []
read_array n (suc count) bytes = from_le_bytes (take n bytes) ∷ read_array n count (drop n bytes)

pub push_values-flat : (n : ℕ) (out vs : List ℕ) → push_values n out vs ≡ out ++ flat n vs
unfolding push_values flat
push_values-flat n out [] = sym (append-nil out)
push_values-flat n out (v ∷ vs) =
    push_values-flat n (out ++ le_bytes n v) vs ∙ append_assoc out (le_bytes n v) (flat n vs)

pub flat-append : (n : ℕ) (vs ws : List ℕ) → flat n (vs ++ ws) ≡ flat n vs ++ flat n ws
unfolding flat
flat-append n [] ws = refl
flat-append n (v ∷ vs) ws =
    ap (λ t. le_bytes n v ++ t) (flat-append n vs ws)
    ∙ sym (append_assoc (le_bytes n v) (flat n vs) (flat n ws))

pub length-flat : (n : ℕ) (vs : List ℕ) → length (flat n vs) ≡ length vs * n
unfolding flat
length-flat n [] = omega arith
length-flat n (v ∷ vs) =
    length-append (le_bytes n v) (flat n vs) ∙ omega (arith, length-le_bytes n v, length-flat n vs)

pub read_array-flat :
    (n : ℕ) (vs rest : List ℕ)
    → All (λ v. v < 256 ^ n) vs
    → read_array n (length vs) (flat n vs ++ rest) ≡ vs
unfolding read_array flat
read_array-flat n [] rest h = refl
read_array-flat n (v ∷ vs) rest h =
    let size : n ≡ length (le_bytes n v) = sym (length-le_bytes n v) in
    rw (append_assoc (le_bytes n v) (flat n vs) rest) (λ i.
      (ap from_le_bytes (take-append n (le_bytes n v) (flat n vs ++ rest) size)
          ∙ from-le_bytes n v h.0)
        i
      ∷ (ap (read_array n (length vs)) (drop-append n (le_bytes n v) (flat n vs ++ rest) size)
            ∙ read_array-flat n vs rest h.1)
          i)
