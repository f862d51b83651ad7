-- ===== src/RustMinidump/Read/Contents.antt =====
-- The threads, the exception and the process's id that `read_process_from_minidump` returns.
use minidump2core.Prelude.{
  ℕ, ◌≡◌, refl, ap, sym, ◌∙◌, inl, inr, Bool-cases, Option, none, some, List, [], ◌∷◌, ◌++◌, map,
  append_assoc, append-nil,
}
use mathlib.Core.Path.{subst}
use mathlib.Core.Option
use minidump2core.Error.{ok, >>=-eq-ok, ok-injective}
use minidump2core.CpuContext.{RawContext}
use minidump2core.Model.Architecture.{Architecture}
use minidump2core.Model.Process.{
  ThreadSnapshot, DsoDebug, new_process, add_thread, set_auxv, set_pid,
}
use minidump2core.NoteSegment.{Process}
use minidump2core.RustMinidump.Streams.{
  Names, Formats, FileSystem, Minidump, MinidumpThread, MinidumpModule, MinidumpException,
  SystemInfo, Stream, found, failed, linux_dso_debug,
}
use minidump2core.RustMinidump.System.{
  architecture_from_system_info, optional, optional_raw_stream, required,
}
use minidump2core.RustMinidump.Modules.{ConvertOptions}
use minidump2core.RustMinidump.LinkMaps.{parse_dso_debug, synthesize_dso_debug}
use minidump2core.RustMinidump.ElfFile.Auxv.{build_synthetic_auxv}
use minidump2core.RustMinidump.Read.Frame.{Crash, crash_of, streams-Same, module_list-Same}
use minidump2core.RustMinidump.Read.{
  ingest_linux_streams, add_threads, ingest_threads, ingest_module_list, ingest_exception, collect,
  with_dso_debug, with_auxv, synthesize, ingest_dso_debug, is_nil, read_process_from_minidump,
  snapshot_of, first_tid, pid_of,
}

-- The dump's threads, in order, and the exception's fields.
abbrev pub threads_in : Stream (List MinidumpThread) → List (ThreadSnapshot RawContext)
threads_in (failed error) = []
threads_in (found threads) = map snapshot_of threads

abbrev pub crash_in :
    Architecture → Stream MinidumpException → List (ThreadSnapshot RawContext) → Crash
crash_in arch (failed error) threads = record {
  architecture = arch;
  threads = threads;
  crashing_tid = none;
  exception_context = none;
  fatal_signal = 0;
}
crash_in arch (found x) threads = record {
  architecture = arch;
  threads = threads;
  crashing_tid = some x.thread_id;
  exception_context = x.context;
  fatal_signal = x.exception_code;
}

add_threads-append :
    (ts : List MinidumpThread) (p : Process)
    → crash_of (add_threads ts p)
      ≡ record (crash_of p) { threads = p.threads ++ map snapshot_of ts }
unfolding add_threads add_thread crash_of
add_threads-append [] p =
    ap (λ (ts : List (ThreadSnapshot RawContext)). record (crash_of p) { threads = ts })
      (sym (append-nil p.threads))
add_threads-append (t ∷ ts) p =
    add_threads-append ts (add_thread (snapshot_of t) p)
    ∙ ap (λ (us : List (ThreadSnapshot RawContext)). record (crash_of p) { threads = us })
        (append_assoc p.threads (snapshot_of t ∷ []) (map snapshot_of ts))

abbrev pub quiet : Architecture → List (ThreadSnapshot RawContext) → Crash
quiet arch threads = record {
  architecture = arch;
  threads = threads;
  crashing_tid = none;
  exception_context = none;
  fatal_signal = 0;
}

ingest_threads-quiet :
    (arch : Architecture) (s : Stream (List MinidumpThread)) (p : Process)
    → crash_of p ≡ quiet arch []
    → crash_of (ingest_threads s p) ≡ quiet arch (threads_in s)
unfolding ingest_threads crash_of
ingest_threads-quiet arch (failed error) p e = e
ingest_threads-quiet arch (found ts) p e =
    add_threads-append ts p
    ∙ ap (λ (c : Crash). record c { threads = c.threads ++ map snapshot_of ts }) e

ingest_exception-crash_in :
    (arch : Architecture) (ts : List (ThreadSnapshot RawContext)) (s : Stream MinidumpException)
    (p : Process)
    → crash_of p ≡ quiet arch ts
    → crash_of (ingest_exception s p) ≡ crash_in arch s ts
unfolding ingest_exception crash_of
ingest_exception-crash_in arch ts (failed error) p e = e
ingest_exception-crash_in arch ts (found x) p e =
    ap
      (λ (c : Crash). record c {
        crashing_tid = some x.thread_id;
        exception_context = x.context;
        fatal_signal = x.exception_code;
      })
      e

abbrev pub pid_in : Crash → ℕ
pid_in c = Option.get_or c.crashing_tid (first_tid c.threads)

collect-crash_in :
    (dump : Minidump) (options : ConvertOptions) (arch : Architecture) (p : Process)
    → crash_of p ≡ quiet arch []
    → (crash_of (collect dump options p)
        ≡ crash_in arch dump.exception (threads_in dump.thread_list))
      × ((collect dump options p).process_info.pid
          ≡ pid_in (crash_in arch dump.exception (threads_in dump.thread_list)))
unfolding collect set_pid pid_of crash_of
collect-crash_in dump options arch p e =
    let whole =
      ingest_exception-crash_in arch (threads_in dump.thread_list) dump.exception
        (ingest_module_list dump.module_list options (ingest_threads dump.thread_list p))
        (module_list-Same dump.module_list options (ingest_threads dump.thread_list p)
          ∙ ingest_threads-quiet arch dump.thread_list p e) in
    (whole, ap pid_in whole)

-- The link map and the auxiliary vector change nothing of this.
abbrev Kept : Process → Process → Type 0
Kept p q = (crash_of q ≡ crash_of p) × (q.process_info.pid ≡ p.process_info.pid)

with_dso_debug-Kept : (o : Option DsoDebug) (p : Process) → Kept p (with_dso_debug o p)
unfolding crash_of
with_dso_debug-Kept none p = (refl, refl)
with_dso_debug-Kept (some dso) p = (refl, refl)

with_auxv-Kept : (o : Option (List ℕ)) (p : Process) → Kept p (with_auxv o p)
unfolding crash_of set_auxv
with_auxv-Kept none p = (refl, refl)
with_auxv-Kept (some auxv) p = (refl, refl)

synthesize-Kept :
    (fs : FileSystem) (arch : Architecture) (s : Stream (List MinidumpModule)) (p : Process)
    → Kept p (synthesize fs arch s p)
synthesize-Kept fs arch (failed error) p = (refl, refl)
synthesize-Kept fs arch (found ms) p =
    let linked = with_dso_debug (synthesize_dso_debug fs arch ms p.signatures) p in
    let first = with_dso_debug-Kept (synthesize_dso_debug fs arch ms p.signatures) p in
    let second = with_auxv-Kept (build_synthetic_auxv fs arch ms) linked in
    elim (Bool-cases (is_nil linked.auxv)) [
      | inl t ↦ (rw t (second.0 ∙ first.0), rw t (second.1 ∙ first.1))
      | inr f ↦ (rw f first.0, rw f first.1)
    ]

ingest_dso_debug-Kept :
    (formats : Formats) (fs : FileSystem) (arch : Architecture) (s : Stream (List MinidumpModule))
    (full_file : List ℕ) (bytes : Option (List ℕ)) (p q : Process)
    → ingest_dso_debug formats fs arch s full_file bytes p ≡ ok q
    → Kept p q
unfolding crash_of
ingest_dso_debug-Kept formats fs arch s full_file none p q e =
    subst (Kept p) (ok-injective e) (synthesize-Kept fs arch s p)
ingest_dso_debug-Kept formats fs arch s full_file (some bytes) p q e =
    let (dso, t, e1) = >>=-eq-ok (parse_dso_debug formats arch bytes full_file) _ e in
    subst (Kept p) (ok-injective e1) (refl, refl)

new_process-quiet : (arch : Architecture) → crash_of (new_process arch) ≡ quiet arch []
unfolding crash_of new_process
new_process-quiet arch = refl

-- A process that `read_process_from_minidump` returns has the architecture of the dump's system
-- information, a snapshot of every thread of the dump in its order (none without the stream), and the
-- thread, the context and the signal of the exception (none, none and 0 without it); its process id is
-- the crashing thread's id, or without an exception the first thread's, or 0.
pub read_process_from_minidump-crash_in :
    (names : Names) (formats : Formats) (fs : FileSystem) (dump : Minidump) (full_file : List ℕ)
    (options : ConvertOptions) (p : Process)
    → read_process_from_minidump names formats fs dump full_file options ≡ ok p
    → (info : SystemInfo) × (arch : Architecture) × (required dump.system_info ≡ ok info)
      × (architecture_from_system_info names info ≡ ok arch)
      × (crash_of p ≡ crash_in arch dump.exception (threads_in dump.thread_list))
      × (p.process_info.pid ≡ pid_in (crash_in arch dump.exception (threads_in dump.thread_list)))
unfolding read_process_from_minidump optional_raw_stream
read_process_from_minidump-crash_in names formats fs dump full_file options p e =
    let (info, s, e1) = >>=-eq-ok (required dump.system_info) _ e in
    let (arch, t, e2) = >>=-eq-ok (architecture_from_system_info names info) _ e1 in
    let (streamed, u, e3) = >>=-eq-ok (ingest_linux_streams dump (new_process arch)) _ e2 in
    let (dso, v, e4) = >>=-eq-ok (optional (dump.raw_stream linux_dso_debug)) _ e3 in
    let collected =
      collect-crash_in dump options arch streamed
        (streams-Same dump (new_process arch) streamed u ∙ new_process-quiet arch) in
    let kept =
      ingest_dso_debug-Kept formats fs arch dump.module_list full_file dso
        (collect dump options streamed) p e4 in
    (info, arch, s, t, kept.0 ∙ collected.0, kept.1 ∙ collected.1)
