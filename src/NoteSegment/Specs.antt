-- ===== src/NoteSegment/Specs.antt =====
-- The notes that the note segment of src/core_writer.rs is to contain, as a list, and a reader of a
-- segment note by note.
use minidump2core.Prelude.{ℕ, zero, suc, List, [], ◌∷◌, ◌++◌, length, Option, none, some}
use minidump2core.Error.{Result, ok, ◌>>=◌}
use minidump2core.Bytes.{IsU32}
use minidump2core.Notes.{nul_terminated, build_prpsinfo, build_prstatus, build_nt_file_payload}
use minidump2core.Notes.Parse.{parse_note}
use minidump2core.Elf.{
  core_name, linux_name, nt_prstatus, nt_fpregset, nt_prpsinfo, nt_auxv, nt_file, nt_prxfpreg,
}
use minidump2core.Model.Architecture.{Architecture}
use minidump2core.CpuContext.{RawContext}
use minidump2core.Regs.{to_pr_reg, to_fpregset, to_prxfpreg}
use minidump2core.NoteSegment.{Process, Thread, or_else, is_some, ordered_threads}

-- A note that the segment is to contain.
pub record NoteSpec : Type 0 where
  pub name : List ℕ
  pub type : ℕ
  pub desc : List ℕ

abbrev pub note_of : List ℕ → ℕ → List ℕ → NoteSpec
note_of name type desc = record { name = nul_terminated name; type = type; desc = desc }

abbrev pub optional_note : List ℕ → ℕ → Option (List ℕ) → List NoteSpec
optional_note name type none = []
optional_note name type (some desc) = note_of name type desc ∷ []

-- NT_PRSTATUS, and the floating-point notes that the architecture has.
unfoldable pub context_notes : Architecture → ℕ → ℕ → RawContext → Result (List NoteSpec)
context_notes arch tid fatal_signal context = do
  pr_reg ← to_pr_reg arch context
  let fp = to_fpregset arch context
  ok (
      note_of core_name nt_prstatus (build_prstatus arch tid fatal_signal pr_reg (is_some fp))
      ∷ (optional_note core_name nt_fpregset fp
          ++ optional_note linux_name nt_prxfpreg (to_prxfpreg arch context)))

abbrev pub thread_notes : Architecture → ℕ → ℕ → Option RawContext → Result (List NoteSpec)
thread_notes arch tid fatal_signal none = ok []
thread_notes arch tid fatal_signal (some context) = context_notes arch tid fatal_signal context

-- The threads that do not come first have signal 0 and their own context.
unfoldable pub later_notes : Architecture → List Thread → Result (List NoteSpec)
later_notes arch [] = ok []
later_notes arch (t ∷ ts) = do
  notes ← thread_notes arch t.tid 0 t.context
  rest ← later_notes arch ts
  ok (notes ++ rest)

-- The first thread has the fatal signal, and the exception's context where there is one.
unfoldable pub threads_notes : Process → List Thread → Result (List NoteSpec)
threads_notes p [] = ok []
threads_notes p (t ∷ ts) = do
  notes ← thread_notes p.architecture t.tid p.fatal_signal (or_else p.exception_context t.context)
  rest ← later_notes p.architecture ts
  ok (notes ++ rest)

-- The notes of a process: of the process first, then of each thread.
unfoldable pub process_notes : Process → Result (List NoteSpec)
process_notes p = do
  files ← build_nt_file_payload p.architecture p.mappings
  threads ← threads_notes p (ordered_threads p.crashing_tid p.threads)
  ok (
      note_of core_name nt_prpsinfo (build_prpsinfo p.architecture p.process_info)
      ∷ (note_of core_name nt_auxv p.auxv ∷ (note_of core_name nt_file files ∷ threads)))

abbrev pub Fits : NoteSpec → Type 0
Fits n = IsU32 (length n.name) × IsU32 n.type × IsU32 (length n.desc)

-- `count` notes read from the front, and the bytes behind them.
abbrev pub parse_notes : ℕ → List ℕ → List NoteSpec × List ℕ
parse_notes zero bytes = ([], bytes)
parse_notes (suc count) bytes =
    let first = parse_note bytes in
    let later = parse_notes count first.rest in
    (record { name = first.name; type = first.type; desc = first.desc } ∷ later.0, later.1)
