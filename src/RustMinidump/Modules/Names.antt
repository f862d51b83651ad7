-- ===== src/RustMinidump/Modules/Names.antt =====
-- The names that `signature_for` gives.
use minidump2core.Prelude.{
  ℕ, suc, ◌≡◌, refl, ap, ◌∙◌, ◌≢◌, inl, inr, arith, Bool, true, false, Bool-cases, Option, none,
  some, Option-cases, List, [], ◌∷◌, ◌++◌, replicate, ◌==◌, if◌then◌else◌, All, ==_iff,
}
use mathlib.Core.Path.{subst}
use mathlib.Core.Option
use minidump2core.Model.ProcessInfo.{after_last_slash, basename, slash}
use minidump2core.RustMinidump.Streams.{MinidumpModule}
use minidump2core.RustMinidump.Modules.{ConvertOptions, trim_end_slashes, signature_for}

abbrev pub NotSlash : ℕ → Type 0
NotSlash c = c ≢ slash

pub after_last_slash-none : (cs : List ℕ) → after_last_slash cs ≡ none → All NotSlash cs
unfolding after_last_slash
after_last_slash-none [] e = tt
after_last_slash-none (c ∷ cs) e = elim (Option-cases (after_last_slash cs)) [
  | inl n ↦ elim (Bool-cases (c == slash)) [
    | inl t ↦ absurd (ground (arith, n, t))
    | inr f ↦ (ground (arith, f), after_last_slash-none cs n)
  ]
  | inr (name, s) ↦ absurd (ground (arith, s))
]

pub after_last_slash-some : (cs name : List ℕ) → after_last_slash cs ≡ some name → All NotSlash name
unfolding after_last_slash
after_last_slash-some [] name e = absurd (ground arith)
after_last_slash-some (c ∷ cs) name e = elim (Option-cases (after_last_slash cs)) [
  | inl n ↦ elim (Bool-cases (c == slash)) [
    | inl t ↦
        let here : cs ≡ name = ground (arith, n, t) in
        subst (All NotSlash) here (after_last_slash-none cs n)
    | inr f ↦ absurd (ground (arith, n, f))
  ]
  | inr (found, s) ↦
      let here : found ≡ name = ground (arith, s) in
      subst (All NotSlash) here (after_last_slash-some cs found s)
]

basename-NotSlash : (path : List ℕ) → All NotSlash (basename path)
unfolding basename
basename-NotSlash path = elim (Option-cases (after_last_slash path)) [
  | inl n ↦ rw n (after_last_slash-none path n)
  | inr (name, s) ↦ rw s (after_last_slash-some path name s)
]

pub no_slash : (cs : List ℕ) → All NotSlash cs → after_last_slash cs ≡ none
unfolding after_last_slash
no_slash [] h = refl
no_slash (c ∷ cs) h = ground (arith, h.0, no_slash cs h.1)

pub after_last_slash-append :
    (dir name : List ℕ) → All NotSlash name → after_last_slash (dir ++ (slash ∷ name)) ≡ some name
unfolding after_last_slash
after_last_slash-append [] name h = rw (no_slash name h) refl
after_last_slash-append (c ∷ dir) name h = rw (after_last_slash-append dir name h) refl

abbrev pub EndsInSlash : List ℕ → Type 0
EndsInSlash cs = (front : List ℕ) × (cs ≡ front ++ (slash ∷ []))

-- What `trim_end_matches('/')` leaves, in front of the slashes that it takes off.
trim_end_slashes-replicate :
    (cs : List ℕ) → (n : ℕ) × (cs ≡ trim_end_slashes cs ++ replicate n slash)
unfolding trim_end_slashes
trim_end_slashes-replicate [] = (0, refl)
trim_end_slashes-replicate (c ∷ cs) =
    let (n, e) = trim_end_slashes-replicate cs in go (trim_end_slashes cs) n e
  where
    go :
        (rest : List ℕ) (n : ℕ)
        → cs ≡ rest ++ replicate n slash
        → (k : ℕ) × ((c ∷ cs)
            ≡ (elim rest as (λ (_ : List ℕ). List ℕ) [
              | [] ↦ if c == slash then [] else c ∷ []
              | d ∷ ds ↦ c ∷ (d ∷ ds)
            ])
              ++ replicate k slash)
    go [] n e = elim (Bool-cases (c == slash)) [
      | inl t ↦ (suc n, rw t (ap (λ d. d ∷ cs) ((==_iff c slash).0 t) ∙ ap (λ ds. slash ∷ ds) e))
      | inr f ↦ (n, rw f (ap (λ ds. c ∷ ds) e))
    ]
    go (d ∷ ds) n e = (n, ap (λ t. c ∷ t) e)

trim_end_slashes-clean : (cs : List ℕ) → ¬ EndsInSlash (trim_end_slashes cs)
unfolding trim_end_slashes
trim_end_slashes-clean [] ([], e) = absurd (ground arith)
trim_end_slashes-clean [] (f ∷ front, e) = absurd (ground arith)
trim_end_slashes-clean (c ∷ cs) h = go (trim_end_slashes cs) (trim_end_slashes-clean cs) h
  where
    single : (t : Bool) → (c == slash) ≡ t → ¬ EndsInSlash (if t then [] else c ∷ [])
    single true e ([], p) = absurd (ground arith)
    single true e (f ∷ front, p) = absurd (ground arith)
    single false e ([], p) = absurd (ground arith)
    single false e (f ∷ [], p) = absurd (ground arith)
    single false e (f ∷ (g ∷ front), p) = absurd (ground arith)

    go :
        (rest : List ℕ)
        → ¬ EndsInSlash rest
        → ¬ EndsInSlash (elim rest as (λ (_ : List ℕ). List ℕ) [
          | [] ↦ if c == slash then [] else c ∷ []
          | d ∷ ds ↦ c ∷ (d ∷ ds)
        ])
    go [] no_end h = single (c == slash) refl h
    go (d ∷ ds) no_end ([], p) = absurd (ground arith)
    go (d ∷ ds) no_end (f ∷ front, p) = no_end (front, ground arith)

-- With a base directory, the name is the directory without the slashes at its end, one slash, and the
-- part of the module's name behind its last slash, whether names are mangled or not; and that part is
-- also the part of the new name behind its last slash.
pub signature_for_lem :
    (m : MinidumpModule) (options : ConvertOptions) (dir : List ℕ)
    → options.so_base_dir ≡ some dir
    → (front : List ℕ) × (n : ℕ) × (dir ≡ front ++ replicate n slash)
      × (¬ EndsInSlash front)
      × (signature_for m options ≡ front ++ (slash ∷ basename m.name))
      × (basename (signature_for m options) ≡ basename m.name)
unfolding signature_for basename
signature_for_lem m options dir h =
    let (n, e) = trim_end_slashes-replicate dir in
    let named : signature_for m options ≡ trim_end_slashes dir ++ (slash ∷ basename m.name) =
      rw h refl in
    (
      trim_end_slashes dir,
      n,
      e,
      trim_end_slashes-clean dir,
      named,
      ap basename named
          ∙ ap
              (λ (o : Option (List ℕ)).
                Option.get_or o (trim_end_slashes dir ++ (slash ∷ basename m.name)))
              (after_last_slash-append (trim_end_slashes dir) (basename m.name)
                (basename-NotSlash m.name)),
    )
