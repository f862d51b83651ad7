-- ===== src/RustMinidump/ElfFile/Auxv/Entries.antt =====
-- A reader of an auxiliary vector, on what `build_synthetic_auxv` returns.
use minidump2core.Prelude.{
  ℕ, zero, suc, ◌+◌, ◌*◌, ◌^◌, ◌<◌, ◌≡◌, refl, ap, sym, ◌∙◌, ◌≢◌, arith, inl, inr, Bool, true,
  false, Bool-cases, Option, none, some, List, [], ◌++◌, drop, ltb, ltb→lt, ◌==◌, if◌then◌else◌,
  >>?-eq-some, append_assoc, append-nil, length-append, drop-append,
}
use mathlib.Core.Path.{subst}
use mathlib.Core.Option
use minidump2core.Bytes.{le_bytes, length-le_bytes}
use minidump2core.Elf.Read.{read_le, read-le_append}
use minidump2core.Model.Align.{checked_add}
use minidump2core.RustMinidump.ElfFile.{ensure}
use minidump2core.RustMinidump.ElfFile.Auxv.{
  auxv_pair, at_phdr_type, at_entry_type, auxv_bytes, encode_auxv,
}

-- The value of a tag in at most `n` entries of `word` bytes each half, up to AT_NULL.
unfoldable pub lookup_auxv : ℕ → ℕ → ℕ → List ℕ → Option ℕ
unfolding read_le
lookup_auxv zero word tag bytes = none
lookup_auxv (suc n) word tag bytes =
    let later = lookup_auxv n word tag (drop (2 * word) bytes) in
    if read_le word 0 bytes == 0
    then none
    else (if read_le word 0 bytes == tag then some (read_le word word bytes) else later)

lookup_auxv-pair :
    (n word tag typ val : ℕ) (rest : List ℕ)
    → typ < 256 ^ word
    → val < 256 ^ word
    → lookup_auxv (suc n) word tag (auxv_pair word typ val ++ rest)
      ≡ (if typ == 0 then none else (if typ == tag then some val else lookup_auxv n word tag rest))
unfolding lookup_auxv
lookup_auxv-pair n word tag typ val rest h k =
    let whole : (le_bytes word typ ++ le_bytes word val) ++ rest
        ≡ le_bytes word typ ++ (le_bytes word val ++ rest) =
      append_assoc (le_bytes word typ) (le_bytes word val) rest in
    let first : read_le word 0 ((le_bytes word typ ++ le_bytes word val) ++ rest) ≡ typ =
      ap (read_le word 0) whole ∙ read-le_append word 0 [] typ (le_bytes word val ++ rest) refl h in
    let second : read_le word word ((le_bytes word typ ++ le_bytes word val) ++ rest) ≡ val =
      ap (read_le word word) whole
      ∙ read-le_append word word (le_bytes word typ) val rest (sym (length-le_bytes word typ)) k in
    let behind : drop (2 * word) ((le_bytes word typ ++ le_bytes word val) ++ rest) ≡ rest =
      drop-append (2 * word) (le_bytes word typ ++ le_bytes word val) rest (
        omega (
          arith,
          length-append (le_bytes word typ) (le_bytes word val),
          length-le_bytes word typ,
          length-le_bytes word val,
        )) in
    rw first (rw second (rw behind refl))

-- The two tags, and no other.
pub record Holds (word at_phdr at_entry : ℕ) (bytes : List ℕ) : Type 0 where
  pub phdr_entry : lookup_auxv 3 word at_phdr_type bytes ≡ some at_phdr
  pub entry_entry : lookup_auxv 3 word at_entry_type bytes ≡ some at_entry
  pub no_other :
      (tag : ℕ) → tag ≢ at_phdr_type → tag ≢ at_entry_type → lookup_auxv 3 word tag bytes ≡ none

lookup_auxv-bytes :
    (word tag at_phdr at_entry : ℕ)
    → 9 < 256 ^ word
    → at_phdr < 256 ^ word
    → at_entry < 256 ^ word
    → lookup_auxv 3 word tag (auxv_bytes word at_phdr at_entry) ≡ (
        if at_phdr_type == tag
        then some at_phdr
        else (if at_entry_type == tag then some at_entry else none))
unfolding auxv_bytes
lookup_auxv-bytes word tag at_phdr at_entry w h k =
    lookup_auxv-pair 2 word tag 3 at_phdr (auxv_pair word 9 at_entry ++ auxv_pair word 0 0)
      (omega arith) h
    ∙ ap (λ (o : Option ℕ). if at_phdr_type == tag then some at_phdr else o)
        (lookup_auxv-pair 1 word tag 9 at_entry (auxv_pair word 0 0) w k
          ∙ ap (λ (o : Option ℕ). if at_entry_type == tag then some at_entry else o)
              (ap (lookup_auxv 1 word tag) (sym (append-nil (auxv_pair word 0 0)))
                ∙ lookup_auxv-pair 0 word tag 0 0 [] (omega arith) (omega arith)))

auxv_bytes-Holds :
    (word at_phdr at_entry : ℕ)
    → 9 < 256 ^ word
    → at_phdr < 256 ^ word
    → at_entry < 256 ^ word
    → Holds word at_phdr at_entry (auxv_bytes word at_phdr at_entry)
auxv_bytes-Holds word p e w h k = record {
  phdr_entry = lookup_auxv-bytes word at_phdr_type p e w h k;
  entry_entry = lookup_auxv-bytes word at_entry_type p e w h k;
  no_other = λ tag a b. lookup_auxv-bytes word tag p e w h k ∙ ground (arith, a, b);
}

ensure-true : (test : Bool) (u : Unit {0}) → ensure test ≡ some u → test ≡ true
ensure-true true u e = refl
ensure-true false u e = absurd (ground arith)

pub checked_add-some : (a b c : ℕ) → checked_add a b ≡ some c → (c ≡ a + b) × (c < 2 ^ 64)
checked_add-some a b c e = elim (Bool-cases (ltb (a + b) (2 ^ 64))) [
  | inl t ↦ (ground (arith, t), ground (arith, t))
  | inr f ↦ absurd (ground (arith, f))
]

abbrev pub word_of : Bool → ℕ
word_of is_64 = if is_64 then 8 else 4

pub encode_auxv-Holds :
    (is_64 : Bool) (at_phdr at_entry : ℕ) (out : List ℕ)
    → at_phdr < 2 ^ 64
    → at_entry < 2 ^ 64
    → encode_auxv is_64 at_phdr at_entry ≡ some out
    → Holds (word_of is_64) at_phdr at_entry out
unfolding encode_auxv
encode_auxv-Holds true p e out h k s =
    subst (Holds 8 p e) (Option.some-injective _ _ s) (auxv_bytes-Holds 8 p e (omega arith) h k)
encode_auxv-Holds false p e out h k s =
    let (a, t, s1) = >>?-eq-some (ensure (ltb p (2 ^ 32))) _ s in
    let (b, u, s2) = >>?-eq-some (ensure (ltb e (2 ^ 32))) _ s1 in
    subst (Holds 4 p e) (Option.some-injective _ _ s2) (
      auxv_bytes-Holds 4 p e (omega arith) (ltb→lt p (2 ^ 32) (ensure-true (ltb p (2 ^ 32)) a t))
        (ltb→lt e (2 ^ 32) (ensure-true (ltb e (2 ^ 32)) b u)))
