-- ===== src/NoteSegment.antt =====
-- `build_note_segment` and `write_thread_notes` of src/core_writer.rs: which notes stand in the PT_NOTE
-- segment, and in which order.
pub mod Order
pub mod Specs
pub mod Adds
pub mod Contents
use minidump2core.Prelude.{
  ℕ, zero, suc, Bool, true, false, Option, none, some, List, [], ◌∷◌, ◌++◌, ◌==◌, if◌then◌else◌,
}
use minidump2core.Error.{Result, ok, ◌>>=◌}
use minidump2core.Writer.{vec_write}
use minidump2core.Elf.{
  core_name, linux_name, nt_prstatus, nt_fpregset, nt_prpsinfo, nt_auxv, nt_file, nt_prxfpreg,
}
use minidump2core.Notes.{
  build_note, write_note, build_prpsinfo, build_prstatus, build_nt_file_payload,
}
use minidump2core.CpuContext.{RawContext}
use minidump2core.Regs.{to_pr_reg, to_fpregset, to_prxfpreg}
use minidump2core.Model.Architecture.{Architecture}
use minidump2core.Model.Process.{CrashedProcess, ThreadSnapshot}

abbrev pub Process : Type 0
Process = CrashedProcess RawContext

abbrev pub Thread : Type 0
Thread = ThreadSnapshot RawContext

-- `Note::build(name, n_type, desc)?.write(out)?` on a vector.
unfoldable pub add_note : List ℕ → ℕ → List ℕ → List ℕ → Result (List ℕ)
add_note name n_type desc out = do note ← build_note name n_type desc; write_note note out

-- `first.or(second)`
abbrev pub or_else : Option RawContext → Option RawContext → Option RawContext
or_else none second = second
or_else (some c) second = some c

abbrev pub is_some : Option (List ℕ) → Bool
is_some none = false
is_some (some bytes) = true

-- `if let Some(desc) = desc { Note::build(name, n_type, &desc)?.write(out)? }`
unfoldable pub add_optional : List ℕ → ℕ → Option (List ℕ) → List ℕ → Result (List ℕ)
add_optional name n_type none out = ok out
add_optional name n_type (some desc) out = add_note name n_type desc out

-- The notes of a thread that has a context.
unfoldable pub write_context_notes : Architecture → ℕ → ℕ → RawContext → List ℕ → Result (List ℕ)
write_context_notes arch tid fatal_signal context out = do
  pr_reg ← to_pr_reg arch context
  let fp = to_fpregset arch context
  let prstatus = build_prstatus arch tid fatal_signal pr_reg (is_some fp)
  status ← add_note core_name nt_prstatus prstatus out
  floats ← add_optional core_name nt_fpregset fp status
  add_optional linux_name nt_prxfpreg (to_prxfpreg arch context) floats

unfoldable pub write_thread_notes :
    Architecture → Thread → ℕ → Option RawContext → List ℕ → Result (List ℕ)
write_thread_notes arch thread fatal_signal context_override out =
    elim (or_else context_override thread.context) [
      | none ↦ ok out
      | some context ↦ write_context_notes arch thread.tid fatal_signal context out
    ]

-- `threads().iter().find(|t| t.tid == tid)`
unfoldable pub find_thread : ℕ → List Thread → Option Thread
find_thread tid [] = none
find_thread tid (t ∷ ts) = if t.tid == tid then some t else find_thread tid ts

-- `Some(thread.tid) != crashing`
abbrev pub is_crashing : Option ℕ → Thread → Bool
is_crashing none t = false
is_crashing (some tid) t = t.tid == tid

unfoldable pub other_threads : Option ℕ → List Thread → List Thread
other_threads crashing [] = []
other_threads crashing (t ∷ ts) =
    if is_crashing crashing t then other_threads crashing ts else t ∷ other_threads crashing ts

unfoldable pub found_thread : Option ℕ → List Thread → List Thread
found_thread none ts = []
found_thread (some tid) ts = elim (find_thread tid ts) [ none ↦ [] | some t ↦ t ∷ [] ]

-- The crashing thread first, then the rest.
unfoldable pub ordered_threads : Option ℕ → List Thread → List Thread
unfolding found_thread other_threads
ordered_threads crashing ts = found_thread crashing ts ++ other_threads crashing ts

-- `for (index, thread) in ordered.iter().enumerate()`
unfoldable pub write_threads : Process → ℕ → List Thread → List ℕ → Result (List ℕ)
write_threads p index [] out = ok out
write_threads p index (thread ∷ ts) out =
    let signal = if index == 0 then p.fatal_signal else 0 in
    let context_override = if index == 0 then p.exception_context else none in
    do
      written ← write_thread_notes p.architecture thread signal context_override out
      write_threads p (suc index) ts written

unfoldable pub build_note_segment : Process → Result (List ℕ)
build_note_segment p = do
  let arch = p.architecture
  info ← add_note core_name nt_prpsinfo (build_prpsinfo arch p.process_info) []
  auxv ← add_note core_name nt_auxv p.auxv info
  nt_file_payload ← build_nt_file_payload arch p.mappings
  files ← add_note core_name nt_file nt_file_payload auxv
  write_threads p 0 (ordered_threads p.crashing_tid p.threads) files
