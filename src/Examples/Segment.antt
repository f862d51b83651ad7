-- ===== src/Examples/Segment.antt =====
-- The notes of src/notes.rs and of the note segment of src/core_writer.rs at small inputs.
use minidump2core.Prelude.{
  ℕ, ◌%◌, ◌≡◌, ◌≢◌, refl, arith, true, none, some, List, [], ◌∷◌, ◌++◌, length,
}
use minidump2core.Error.{ok}
use minidump2core.Model.Architecture.{x86_64, aarch64, long_size}
use minidump2core.Model.Mapping.{Mapping, no_permissions}
use minidump2core.Model.ProcessInfo.{new_info}
use minidump2core.Notes.{Note, build_note, build_nt_file_payload, build_prpsinfo, build_prstatus}
use minidump2core.Notes.Parse.{parse_note}
use minidump2core.Notes.RoundTrip.{EndsInNul, ended, unended, build_note-parse}
use minidump2core.Notes.FilePayload.Named.{AreNamed, done, nameless, named}
use minidump2core.Notes.FilePayload.{described, build_nt_file_payload-parse}
use minidump2core.Notes.FilePayload.Reader.{parse_nt_file}
use minidump2core.Notes.Prpsinfo.{IsPrpsinfo, build_prpsinfo-IsPrpsinfo}
use minidump2core.Notes.Prstatus.{IsPrstatus, build_prstatus-IsPrstatus}
use minidump2core.NoteSegment.{Thread, ordered_threads}
use minidump2core.NoteSegment.Order.{DistinctTids, ordered_threads-perm}
use minidump2core.BTreeMap.{BTreeMap, values}
use mathlib.Core.List.{Perm}

abbrev name_core : List ℕ
name_core = b'C' ∷ b'O' ∷ b'R' ∷ b'E' ∷ []

abbrev stored_core : List ℕ
stored_core = b'C' ∷ b'O' ∷ b'R' ∷ b'E' ∷ 0 ∷ []

not_ended : ¬ EndsInNul name_core
not_ended ([], e) = absurd (ground arith)
not_ended (a ∷ [], e) = absurd (ground arith)
not_ended (a ∷ (b ∷ []), e) = absurd (ground arith)
not_ended (a ∷ (b ∷ (c ∷ [])), e) = absurd (ground arith)
not_ended (a ∷ (b ∷ (c ∷ (d ∷ []))), e) = absurd (ground arith)
not_ended (a ∷ (b ∷ (c ∷ (d ∷ (f ∷ front)))), e) = absurd (ground arith)

abbrev five : List ℕ
five = 1 ∷ 2 ∷ 3 ∷ 4 ∷ 5 ∷ []

-- A name without a NUL, and the same name with one.
build_note-parse_example :
    ((note : Note) × (build_note name_core 6 five ≡ ok note)
      × (length note.bytes % 4 ≡ 0)
      × (parse_note (note.bytes ++ five)
          ≡ record { name = stored_core; type = 6; desc = five; rest = five }))
    × ((note : Note) × (build_note stored_core 6 five ≡ ok note)
        × (length note.bytes % 4 ≡ 0)
        × (parse_note (note.bytes ++ five)
            ≡ record { name = stored_core; type = 6; desc = five; rest = five }))
build_note-parse_example = (
  build_note-parse name_core stored_core 6 five five (unended not_ended refl) (ground arith)
      (omega arith) (ground arith),
  build_note-parse stored_core stored_core 6 five five (ended (name_core, refl) refl) (ground arith)
      (omega arith) (ground arith),
)

abbrev lib_name : List ℕ
lib_name = b'l' ∷ b'i' ∷ b'b' ∷ []

abbrev library : Mapping
library = record {
  start_address = 65536;
  end_address = 73728;
  offset = 4096;
  permissions = no_permissions;
  filename = some lib_name;
  bytes = [];
}

abbrev stack : Mapping
stack = record {
  start_address = 131072;
  end_address = 135168;
  offset = 0;
  permissions = no_permissions;
  filename = none;
  bytes = five;
}

abbrev table : BTreeMap Mapping
table = (65536, library) ∷ (131072, stack) ∷ []

table_named : AreNamed (values table) ((library, lib_name) ∷ [])
unfolding values
table_named = named refl (nameless refl done)

build_nt_file_payload-parse_example :
    (payload : List ℕ) × (build_nt_file_payload x86_64 table ≡ ok payload)
    × (parse_nt_file (long_size x86_64) payload ≡ described ((library, lib_name) ∷ []))
unfolding long_size
build_nt_file_payload-parse_example =
    build_nt_file_payload-parse x86_64 table ((library, lib_name) ∷ []) table_named (ground arith)
      (ground arith) (ground arith)

build_prstatus-IsPrstatus_example :
    IsPrstatus x86_64 7 11 five true (build_prstatus x86_64 7 11 five true)
build_prstatus-IsPrstatus_example =
    build_prstatus-IsPrstatus 7 11 five true x86_64 (omega arith) (omega arith)

x86_64_is_not : x86_64 ≢ aarch64
x86_64_is_not e = absurd (ground arith)

build_prpsinfo-IsPrpsinfo_example : IsPrpsinfo x86_64 new_info (build_prpsinfo x86_64 new_info)
unfolding new_info
build_prpsinfo-IsPrpsinfo_example =
    build_prpsinfo-IsPrpsinfo new_info (omega arith) refl refl x86_64 x86_64_is_not

abbrev first_thread : Thread
first_thread = record { tid = 5; stack_address = 0; stack = []; context = none }

abbrev second_thread : Thread
second_thread = record { tid = 6; stack_address = 0; stack = []; context = none }

distinct : DistinctTids (first_thread ∷ second_thread ∷ [])
distinct = ((λ e. ground arith, tt), (tt, tt))

ordered_threads-perm_example :
    Perm
      (ordered_threads (some 6) (first_thread ∷ second_thread ∷ []))
      (first_thread ∷ second_thread ∷ [])
ordered_threads-perm_example =
    ordered_threads-perm (some 6) (first_thread ∷ second_thread ∷ []) distinct
