-- ===== src/Notes/FilePayload/Named.antt =====
-- Which mappings `build_nt_file_payload` of src/notes.rs lists.
use minidump2core.Prelude.{ℕ, ◌≡◌, refl, List, [], ◌∷◌, none, some}
use minidump2core.Model.Mapping.{Mapping}
use minidump2core.Notes.{named_entries}

-- The mappings that have a file name, with that name, in the order of the list.
pub data AreNamed : List Mapping → List (Mapping × List ℕ) → Type 0 where
  done : AreNamed [] []
  nameless :
      {m : Mapping} {ms : List Mapping} {entries : List (Mapping × List ℕ)}
      → m.filename ≡ none
      → AreNamed ms entries
      → AreNamed (m ∷ ms) entries
  named :
      {m : Mapping} {ms : List Mapping} {name : List ℕ} {entries : List (Mapping × List ℕ)}
      → m.filename ≡ some name
      → AreNamed ms entries
      → AreNamed (m ∷ ms) ((m, name) ∷ entries)

pub named_entries-AreNamed :
    {ms : List Mapping} {entries : List (Mapping × List ℕ)}
    → AreNamed ms entries
    → named_entries ms ≡ entries
unfolding named_entries
named_entries-AreNamed done = refl
named_entries-AreNamed (nameless e h) = rw e (named_entries-AreNamed h)
named_entries-AreNamed (named e h) = simp (e, named_entries-AreNamed h)
