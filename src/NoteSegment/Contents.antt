-- ===== src/NoteSegment/Contents.antt =====
-- What the note segment of src/core_writer.rs contains, read note by note.
use mathlib.Core.Path.{subst}
use minidump2core.Prelude.{
  ℕ, suc, ◌≡◌, sym, List, [], ◌∷◌, ◌++◌, length, All, Option, none, ◌==◌, false, arith,
}
use minidump2core.Error.{Result, ok, ◌>>=◌, ok-injective, >>=-eq-ok}
use minidump2core.Notes.{build_prpsinfo, build_nt_file_payload}
use minidump2core.Elf.{core_name, nt_prpsinfo, nt_auxv, nt_file}
use minidump2core.Model.Architecture.{Architecture}
use minidump2core.CpuContext.{RawContext}
use minidump2core.NoteSegment.{
  Process, Thread, or_else, write_thread_notes, ordered_threads, write_threads, build_note_segment,
}
use minidump2core.NoteSegment.Specs.{
  NoteSpec, note_of, thread_notes, later_notes, threads_notes, process_notes, Fits, parse_notes,
}
use minidump2core.NoteSegment.Adds.{
  image, parse-image, All-append, Adds, Adds-seq, Adds-nothing, add_note-Adds, write_thread-Adds,
}

-- One thread's notes, then those of the rest.
thread-seq :
    (arch : Architecture) (t : Thread) (signal : ℕ) (override : Option RawContext)
    (later : List ℕ → Result (List ℕ)) (rest : Result (List NoteSpec)) (ns : List NoteSpec)
    → ((ms : List NoteSpec) → rest ≡ ok ms → All Fits ms → Adds later ms)
    → (thread_notes arch t.tid signal (or_else override t.context) >>= λ notes.
        rest >>= λ ms. ok (notes ++ ms))
      ≡ ok ns
    → All Fits ns
    → Adds (λ out. write_thread_notes arch t signal override out >>= later) ns
thread-seq arch t signal override later rest ns ih e h =
    let first = >>=-eq-ok (thread_notes arch t.tid signal (or_else override t.context)) _ e in
    let second = >>=-eq-ok rest (λ ms. ok (first.0 ++ ms)) first.2 in
    let same : first.0 ++ second.0 ≡ ns = ok-injective second.2 in
    let fits = All-append first.0 second.0 (subst (All Fits) (sym same) h) in
    subst (Adds (λ out. write_thread_notes arch t signal override out >>= later)) same (
      Adds-seq (write_thread_notes arch t signal override) later first.0 second.0
        (write_thread-Adds arch t signal override first.0 first.1 fits.0)
        (ih second.0 second.1 fits.1))

write_later-Adds :
    (p : Process) (index : ℕ) (ts : List Thread) (ns : List NoteSpec)
    → later_notes p.architecture ts ≡ ok ns
    → All Fits ns
    → Adds (write_threads p (suc index) ts) ns
unfolding write_threads later_notes
write_later-Adds p index [] ns e h = rw (← ok-injective e) Adds-nothing
write_later-Adds p index (t ∷ ts) ns e h =
    let later : (suc index == 0) ≡ false = ground arith in
    rw (later, write_threads)
      (thread-seq p.architecture t 0 none (write_threads p (suc (suc index)) ts)
        (later_notes p.architecture ts) ns (write_later-Adds p (suc index) ts) e h)

write_threads-Adds :
    (p : Process) (ts : List Thread) (ns : List NoteSpec)
    → threads_notes p ts ≡ ok ns
    → All Fits ns
    → Adds (write_threads p 0 ts) ns
unfolding write_threads threads_notes
write_threads-Adds p [] ns e h = rw (← ok-injective e) Adds-nothing
write_threads-Adds p (t ∷ ts) ns e h =
    thread-seq p.architecture t p.fatal_signal p.exception_context (write_threads p 1 ts)
      (later_notes p.architecture ts) ns (write_later-Adds p 0 ts) e h

segment_image :
    (p : Process) (ns : List NoteSpec)
    → process_notes p ≡ ok ns
    → All Fits ns
    → build_note_segment p ≡ ok (image ns)
unfolding process_notes build_note_segment Adds
segment_image p ns e h =
    let files = >>=-eq-ok (build_nt_file_payload p.architecture p.mappings) _ e in
    let threads =
      >>=-eq-ok (threads_notes p (ordered_threads p.crashing_tid p.threads)) _ files.2 in
    let info = note_of core_name nt_prpsinfo (build_prpsinfo p.architecture p.process_info) in
    let auxv = note_of core_name nt_auxv p.auxv in
    let file = note_of core_name nt_file files.0 in
    let same : info ∷ (auxv ∷ (file ∷ threads.0)) ≡ ns = ok-injective threads.2 in
    let fits = subst (All Fits) (sym same) h in
    rw (files.1, ← same)
      (Adds-seq _ _ (info ∷ []) (auxv ∷ (file ∷ threads.0))
        (add_note-Adds core_name nt_prpsinfo info.desc fits.0)
        (Adds-seq _ _ (auxv ∷ []) (file ∷ threads.0)
          (add_note-Adds core_name nt_auxv p.auxv fits.1.0)
          (Adds-seq _ _ (file ∷ []) threads.0 (add_note-Adds core_name nt_file files.0 fits.1.1.0) (
            write_threads-Adds p (ordered_threads p.crashing_tid p.threads) threads.0 threads.1
              fits.1.1.1)))
        [])

-- Where the process has its notes (NT_FILE and the registers can be written) and each note's name
-- and descriptor are shorter than 2 ^ 32 bytes, the segment is built, and a reader that takes as
-- many notes finds exactly these, in this order, with nothing behind them.
pub build_note_segment-notes :
    (p : Process) (ns : List NoteSpec)
    → process_notes p ≡ ok ns
    → All Fits ns
    → (segment : List ℕ) × (build_note_segment p ≡ ok segment)
      × (parse_notes (length ns) segment ≡ (ns, []))
build_note_segment-notes p ns e h = (image ns, segment_image p ns e h, parse-image ns h)
