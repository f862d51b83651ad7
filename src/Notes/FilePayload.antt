-- ===== src/Notes/FilePayload.antt =====
-- A reader of the NT_FILE descriptor, written from the format in src/notes.rs, against
-- `build_nt_file_payload`.
pub mod Reader
pub mod Named
use minidump2core.Prelude.{
  ℕ, zero, suc, ◌+◌, ◌/◌, ◌^◌, ◌<◌, ◌≡◌, ◌≢◌, refl, ap, sym, ◌∙◌, List, [], ◌∷◌, ◌++◌, length, take,
  drop, map, All, String, Option, none, some, Bool, true, false, if◌then◌else◌, ◌==◌, arith,
  take-append, drop-append, append_assoc, append-nil,
}
use mathlib.Core.Path.{subst}
use minidump2core.Error.{Result, ok, err, ◌>>=◌, >>=-eq-ok, ok-injective}
use minidump2core.Bytes.{le_bytes, from_le_bytes, from-le_bytes, length-le_bytes, IsU64}
use minidump2core.BTreeMap.{BTreeMap, values}
use minidump2core.Model.Architecture.{Architecture, long_size}
use minidump2core.Model.Mapping.{Mapping, default_page_size}
use minidump2core.Notes.{
  try_push_long, named_entries, push_entries, push_names, build_nt_file_payload,
}
use minidump2core.Notes.FilePayload.Named.{AreNamed, named_entries-AreNamed}
use minidump2core.Notes.FilePayload.Reader.{
  FileEntry, FileNote, read_word, read_entries, read_name, read_names, parse_nt_file, NoNul,
  read_word-le_bytes, read_name-append,
}

-- What the note is to say of a mapping.
abbrev pub file_entry : Mapping × List ℕ → FileEntry
file_entry (m, _) = record {
  start = m.start_address;
  end = m.end_address;
  page_ofs = m.offset / default_page_size;
}

abbrev pub IsU64Mapping : Mapping → Type 0
IsU64Mapping m = IsU64 m.start_address × IsU64 m.end_address × IsU64 m.offset

pushed :
    (arch : Architecture) (out : List ℕ) (v : ℕ) (field : String)
    → v < 256 ^ long_size arch
    → try_push_long out v (long_size arch) field ≡ ok (out ++ le_bytes (long_size arch) v)
unfolding try_push_long long_size
pushed arch out v field h = ground arith

name_bytes : List (Mapping × List ℕ) → List ℕ
name_bytes [] = []
name_bytes ((m, name) ∷ entries) = name ++ (0 ∷ name_bytes entries)

push_names-bytes :
    (out : List ℕ) (entries : List (Mapping × List ℕ))
    → push_names out entries ≡ out ++ name_bytes entries
unfolding push_names name_bytes
push_names-bytes out [] = sym (append-nil out)
push_names-bytes out ((m, name) ∷ entries) =
    rw (push_names-bytes ((out ++ name) ++ (0 ∷ [])) entries) (simp append_assoc)

read_names-bytes :
    (entries : List (Mapping × List ℕ))
    → All (λ (e : Mapping × List ℕ). NoNul e.1) entries
    → read_names (length entries) (name_bytes entries) ≡ map (λ (e : Mapping × List ℕ). e.1) entries
unfolding read_names name_bytes
read_names-bytes [] h = refl
read_names-bytes ((m, name) ∷ entries) h =
    rw (read_name-append name (name_bytes entries) h.0)
      (ap (λ t. name ∷ t) (read_names-bytes entries h.1))

abbrev Words : ℕ → FileEntry → Type 0
Words word e = (e.start < 256 ^ word) × (e.end < 256 ^ word) × (e.page_ofs < 256 ^ word)

entry_bytes : ℕ → List FileEntry → List ℕ
entry_bytes word [] = []
entry_bytes word (e ∷ entries) =
    le_bytes word e.start
    ++ (le_bytes word e.end ++ (le_bytes word e.page_ofs ++ entry_bytes word entries))

read_entries-bytes :
    (word : ℕ) (entries : List FileEntry) (rest : List ℕ)
    → All (Words word) entries
    → read_entries word (length entries) (entry_bytes word entries ++ rest) ≡ (entries, rest)
unfolding read_entries entry_bytes
read_entries-bytes word [] rest h = refl
read_entries-bytes word (e ∷ entries) rest h =
    let tail : List ℕ = entry_bytes word entries in
    simp (
      append_assoc,
      read_word-le_bytes word e.start
          (le_bytes word e.end ++ (le_bytes word e.page_ofs ++ (tail ++ rest))) h.0.0,
      read_word-le_bytes word e.end (le_bytes word e.page_ofs ++ (tail ++ rest)) h.0.1,
      read_word-le_bytes word e.page_ofs (tail ++ rest) h.0.2,
      read_entries-bytes word entries rest h.1,
    )

abbrev pub HasWords : ℕ → List (Mapping × List ℕ) → Type 0
HasWords word entries = All (Words word) (map file_entry entries)

push_entries-bytes :
    (arch : Architecture) (out : List ℕ) (entries : List (Mapping × List ℕ))
    → HasWords (long_size arch) entries
    → push_entries out entries (long_size arch)
      ≡ ok (out ++ entry_bytes (long_size arch) (map file_entry entries))
unfolding push_entries entry_bytes
push_entries-bytes arch out [] h = ap ok (sym (append-nil out))
push_entries-bytes arch out ((m, name) ∷ entries) h =
    let word = long_size arch in
    let started : List ℕ = out ++ le_bytes word m.start_address in
    let ended : List ℕ = started ++ le_bytes word m.end_address in
    let placed : List ℕ = ended ++ le_bytes word (m.offset / default_page_size) in
    rw
      (
        pushed arch out m.start_address "NT_FILE mapping start" h.0.0,
        pushed arch started m.end_address "NT_FILE mapping end" h.0.1,
        pushed arch ended (m.offset / default_page_size) "NT_FILE mapping offset" h.0.2,
        push_entries-bytes arch placed entries h.1,
      )
      (simp append_assoc)

-- What the descriptor is to say of the mappings that have a name.
abbrev pub described : List (Mapping × List ℕ) → FileNote
described entries = record {
  page_size = default_page_size;
  entries = map file_entry entries;
  names = map (λ (e : Mapping × List ℕ). e.1) entries;
}

abbrev pub HasNoNul : List (Mapping × List ℕ) → Type 0
HasNoNul entries = All (λ (e : Mapping × List ℕ). NoNul e.1) entries

abbrev shape : ℕ → List (Mapping × List ℕ) → List ℕ
shape word entries =
    le_bytes word (length entries)
    ++ (le_bytes word default_page_size
        ++ (entry_bytes word (map file_entry entries) ++ name_bytes entries))

length-file_entries :
    (entries : List (Mapping × List ℕ)) → length (map file_entry entries) ≡ length entries
length-file_entries [] = refl
length-file_entries (e ∷ entries) = ap suc (length-file_entries entries)

parse-shape :
    (word : ℕ) (entries : List (Mapping × List ℕ))
    → length entries < 256 ^ word
    → default_page_size < 256 ^ word
    → HasWords word entries
    → HasNoNul entries
    → parse_nt_file word (shape word entries) ≡ described entries
unfolding parse_nt_file
parse-shape word entries hc hp hw hn =
    let names : List ℕ = name_bytes entries in
    let body : List ℕ = entry_bytes word (map file_entry entries) in
    let e : read_entries word (length entries) (body ++ names) ≡ (map file_entry entries, names) =
      subst (λ n. read_entries word n (body ++ names) ≡ (map file_entry entries, names))
        (length-file_entries entries) (read_entries-bytes word (map file_entry entries) names hw) in
    simp (
      read_word-le_bytes word (length entries) (le_bytes word default_page_size ++ (body ++ names))
          hc,
      read_word-le_bytes word default_page_size (body ++ names) hp,
      e,
      read_names-bytes entries hn,
    )

page_fits : (arch : Architecture) → default_page_size < 256 ^ long_size arch
unfolding long_size
page_fits arch = ground arith

built-shape :
    (arch : Architecture) (mappings : BTreeMap Mapping) (entries : List (Mapping × List ℕ))
    → named_entries (values mappings) ≡ entries
    → length entries < 256 ^ long_size arch
    → HasWords (long_size arch) entries
    → build_nt_file_payload arch mappings ≡ ok (shape (long_size arch) entries)
unfolding build_nt_file_payload
built-shape arch mappings entries e hc hw =
    let word = long_size arch in
    let counted : List ℕ = le_bytes word (length entries) in
    let paged : List ℕ = counted ++ le_bytes word default_page_size in
    rw
      (
        e,
        pushed arch [] (length entries) "NT_FILE entry count" hc,
        pushed arch counted default_page_size "NT_FILE page size" (page_fits arch),
        push_entries-bytes arch paged entries hw,
        push_names-bytes (paged ++ entry_bytes word (map file_entry entries)) entries,
      )
      (simp append_assoc)

-- For the mappings that have a file name, in the order of the addresses: where their number, their
-- addresses and their offsets in pages fit the target's `long`, and no name holds a NUL,
-- `build_nt_file_payload` succeeds, and a reader of the format finds the page size and the start,
-- the end, the file offset in pages and the name of each of them, and no other entry.
pub build_nt_file_payload-parse :
    (arch : Architecture) (mappings : BTreeMap Mapping) (entries : List (Mapping × List ℕ))
    → AreNamed (values mappings) entries
    → length entries < 256 ^ long_size arch
    → HasWords (long_size arch) entries
    → HasNoNul entries
    → (payload : List ℕ) × (build_nt_file_payload arch mappings ≡ ok payload)
      × (parse_nt_file (long_size arch) payload ≡ described entries)
build_nt_file_payload-parse arch mappings entries h hc hw hn = (
  shape (long_size arch) entries,
  built-shape arch mappings entries (named_entries-AreNamed h) hc hw,
  parse-shape (long_size arch) entries hc (page_fits arch) hw hn,
)
