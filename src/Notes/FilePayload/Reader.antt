-- ===== src/Notes/FilePayload/Reader.antt =====
-- A reader of the NT_FILE descriptor, written from the format that src/notes.rs cites.
use minidump2core.Prelude.{
  ℕ, zero, suc, ◌^◌, ◌<◌, ◌≡◌, ◌≢◌, refl, ap, sym, ◌∙◌, List, [], ◌∷◌, ◌++◌, take, drop, All,
  if◌then◌else◌, ◌==◌, arith, take-append, drop-append,
}
use minidump2core.Bytes.{le_bytes, from_le_bytes, from-le_bytes, length-le_bytes}

-- The reader: one word, `n` triples of words, `n` names that end in a NUL.
unfoldable pub read_word : ℕ → List ℕ → ℕ × List ℕ
read_word word image = (from_le_bytes (take word image), drop word image)

pub record FileEntry : Type 0 where
  pub start : ℕ
  pub end : ℕ
  pub page_ofs : ℕ

unfoldable pub read_entries : ℕ → ℕ → List ℕ → List FileEntry × List ℕ
read_entries word zero image = ([], image)
read_entries word (suc n) image =
    let (start, image₁) = read_word word image in
    let (end, image₂) = read_word word image₁ in
    let (page_ofs, image₃) = read_word word image₂ in
    let (entries, rest) = read_entries word n image₃ in
    (record { start = start; end = end; page_ofs = page_ofs } ∷ entries, rest)

unfoldable pub read_name : List ℕ → List ℕ × List ℕ
read_name [] = ([], [])
read_name (b ∷ image) =
    let (name, rest) = read_name image in if b == 0 then ([], image) else (b ∷ name, rest)

unfoldable pub read_names : ℕ → List ℕ → List (List ℕ)
read_names zero image = []
read_names (suc n) image = let (name, rest) = read_name image in name ∷ read_names n rest

pub record FileNote : Type 0 where
  pub page_size : ℕ
  pub entries : List FileEntry
  pub names : List (List ℕ)

unfoldable pub parse_nt_file : ℕ → List ℕ → FileNote
parse_nt_file word image =
    let (count, image₁) = read_word word image in
    let (page_size, image₂) = read_word word image₁ in
    let (entries, image₃) = read_entries word count image₂ in
    record { page_size = page_size; entries = entries; names = read_names count image₃ }

-- A name with no NUL in it, as a path of the system is.
abbrev pub NoNul : List ℕ → Type 0
NoNul name = All (λ b. b ≢ 0) name

pub read_word-le_bytes :
    (word v : ℕ) (rest : List ℕ)
    → v < 256 ^ word
    → read_word word (le_bytes word v ++ rest) ≡ (v, rest)
unfolding read_word
read_word-le_bytes word v rest h = λ i. (
  (ap from_le_bytes (take-append word (le_bytes word v) rest (sym (length-le_bytes word v)))
        ∙ from-le_bytes word v h)
      i,
  drop-append word (le_bytes word v) rest (sym (length-le_bytes word v)) i,
)

pub read_name-append :
    (name rest : List ℕ) → NoNul name → read_name (name ++ (0 ∷ rest)) ≡ (name, rest)
unfolding read_name
read_name-append [] rest h = refl
read_name-append (b ∷ name) rest h = ground (arith, read_name-append name rest h.1)
