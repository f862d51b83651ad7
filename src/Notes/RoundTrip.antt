-- ===== src/Notes/RoundTrip.antt =====
-- `Note::build` of src/notes.rs read back by the reader of `Notes.Parse`.
use minidump2core.Prelude.{
  ℕ, ◌%◌, ◌≡◌, refl, ap, sym, ◌∙◌, List, [], ◌∷◌, ◌++◌, length, true, false, Bool-cases, some,
  Option-cases, inl, inr, ◌==◌, arith,
}
use minidump2core.Error.{ok}
use minidump2core.Bytes.{IsU32}
use minidump2core.Notes.{Note, nul_terminated, lacks_nul, build_note}
use minidump2core.Notes.Layout.{note_bytes, build_note_bytes}
use minidump2core.Notes.Parse.{parse_note, parse-note_bytes, length-note_bytes}
use mathlib.Core.Path.{subst}
use mathlib.Core.List.{get_last?}

abbrev pub EndsInNul : List ℕ → Type 0
EndsInNul name = (front : List ℕ) × (name ≡ front ++ (0 ∷ []))

-- The name that a note holds for `name`: the same where it ends in a NUL, and one NUL more where it
-- does not.
pub data IsNoteName (name stored : List ℕ) : Type 0 where
  ended : EndsInNul name → stored ≡ name → IsNoteName name stored
  unended : ¬ EndsInNul name → stored ≡ name ++ (0 ∷ []) → IsNoteName name stored

get_last?-append_nul : (name : List ℕ) → get_last? (name ++ (0 ∷ [])) ≡ some 0
get_last?-append_nul [] = refl
get_last?-append_nul (b ∷ []) = refl
get_last?-append_nul (b ∷ (c ∷ name)) = get_last?-append_nul (c ∷ name)

last_nul : (name : List ℕ) → get_last? name ≡ some 0 → EndsInNul name
last_nul [] e = absurd (ground arith)
last_nul (b ∷ []) e = ([], ground (arith, e))
last_nul (b ∷ (c ∷ name)) e =
    let (front, split) = last_nul (c ∷ name) e in (b ∷ front, ap (λ t. b ∷ t) split)

lacks_nul-ended : (name : List ℕ) → EndsInNul name → lacks_nul name ≡ false
unfolding lacks_nul
lacks_nul-ended name (front, split) =
    rw (ap get_last? split ∙ get_last?-append_nul front, lacks_nul) refl

lacks_nul-unended : (name : List ℕ) → ¬ EndsInNul name → lacks_nul name ≡ true
unfolding lacks_nul
lacks_nul-unended name h = elim (Option-cases (get_last? name)) [
  | inl n ↦ rw (n, lacks_nul) refl
  | inr (b, s) ↦ elim (Bool-cases (b == 0)) [
    | inl t ↦ absurd (h (last_nul name (ground (arith, s, t))))
    | inr f ↦ ground (arith, s, f)
  ]
]

nul_terminated-IsNoteName :
    (name stored : List ℕ) → IsNoteName name stored → nul_terminated name ≡ stored
unfolding nul_terminated
nul_terminated-IsNoteName name stored (ended h e) = rw (lacks_nul-ended name h) (sym e)
nul_terminated-IsNoteName name stored (unended h e) = rw (lacks_nul-unended name h) (sym e)

-- The name that a note holds is the given one where that ends in a NUL, and the given one and a NUL
-- where it does not. Where this and the descriptor are shorter than 2 ^ 32 bytes, `Note::build`
-- returns a note whose size is a multiple of 4, and a reader of the format finds at the front of it
-- that name, the type and the descriptor, and leaves exactly what follows the note.
pub build_note-parse :
    (name stored : List ℕ) (type : ℕ) (desc rest : List ℕ)
    → IsNoteName name stored
    → IsU32 (length stored)
    → IsU32 type
    → IsU32 (length desc)
    → (note : Note) × (build_note name type desc ≡ ok note)
      × (length note.bytes % 4 ≡ 0)
      × (parse_note (note.bytes ++ rest)
          ≡ record { name = stored; type = type; desc = desc; rest = rest })
build_note-parse name stored type desc rest hs hn ht hd =
    let same : nul_terminated name ≡ stored = nul_terminated-IsNoteName name stored hs in
    (
      record { bytes = note_bytes stored type desc },
      subst
          (λ (s : List ℕ).
            build_note name type desc ≡ ok (record { bytes = note_bytes s type desc }))
          same
          (build_note_bytes name type desc (subst (λ (s : List ℕ). IsU32 (length s)) (sym same) hn)
            hd),
      length-note_bytes stored type desc,
      parse-note_bytes stored type desc rest hn ht hd,
    )
