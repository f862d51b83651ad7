-- ===== src/RustMinidump/Read.antt =====
-- `read_process_from_minidump` of src/rust_minidump.rs, and the functions that take in one kind of
-- stream each.
pub mod Streamed
pub mod Unmapped
pub mod Table
pub mod Frame
pub mod Contents
use minidump2core.Prelude.{
  ℕ, Bool, true, false, Option, none, some, List, [], ◌∷◌, ◌==◌, if◌then◌else◌,
}
use mathlib.Core.Option
use minidump2core.Error.{Result, ok, ◌>>=◌}
use minidump2core.LinuxMaps.{looks_like_linux_maps, parse_linux_maps}
use minidump2core.Text.Split.{starts_with}
use minidump2core.CpuContext.{RawContext}
use minidump2core.Model.Architecture.{Architecture}
use minidump2core.Model.Mapping.{Mapping, permissions, new_mapping, with_file}
use minidump2core.Model.ProcessInfo.{slash}
use minidump2core.Model.Process.{
  ThreadSnapshot, DsoDebug, new_process, insert_mapping, add_thread, set_auxv, apply_cmdline,
  set_pid,
}
use minidump2core.NoteSegment.{Process}
use minidump2core.RustMinidump.Streams.{
  Names, Formats, FileSystem, Minidump, MapInfo, MinidumpThread, MinidumpModule, MinidumpException,
  Stream, found, failed, linux_auxv, linux_cmd_line, linux_dso_debug,
}
use minidump2core.RustMinidump.System.{architecture_from_system_info, optional_raw_stream, required}
use minidump2core.RustMinidump.Modules.{ConvertOptions, ingest_modules}
use minidump2core.RustMinidump.ElfFile.Auxv.{build_synthetic_auxv}
use minidump2core.RustMinidump.LinkMaps.{parse_dso_debug, synthesize_dso_debug}

-- An entry with a path from the root gives a mapping; the first that has no range is the error.
unfoldable pub mapping_of_info : MapInfo → Option (List ℕ) → Result (Option Mapping)
mapping_of_info info none = ok none
mapping_of_info info (some filename) =
    if starts_with (λ c. c == slash) filename
    then (new_mapping info.start info.end_address
          (permissions info.is_readable info.is_writable info.is_executable)
        >>= λ mapping. ok (some (with_file mapping filename info.offset)))
    else ok none

abbrev pub cons_some : Option Mapping → List Mapping → List Mapping
cons_some none mappings = mappings
cons_some (some mapping) mappings = mapping ∷ mappings

unfoldable pub mappings_from_minidump_linux_maps : List MapInfo → Result (List Mapping)
unfolding mapping_of_info
mappings_from_minidump_linux_maps [] = ok []
mappings_from_minidump_linux_maps (info ∷ infos) = mapping_of_info info info.pathname >>= λ mapping.
    mappings_from_minidump_linux_maps infos >>= λ mappings. ok (cons_some mapping mappings)

unfoldable pub insert_mappings : List Mapping → Process → Process
insert_mappings [] p = p
insert_mappings (m ∷ ms) p = insert_mappings ms (insert_mapping m p)

abbrev pub ingest_maps : Stream (List MapInfo) → Process → Result Process
ingest_maps (failed error) p = ok p
ingest_maps (found maps) p =
    mappings_from_minidump_linux_maps maps >>= λ mappings. ok (insert_mappings mappings p)

abbrev pub ingest_auxv : Option (List ℕ) → Process → Result Process
ingest_auxv none p = ok p
ingest_auxv (some auxv) p =
    if looks_like_linux_maps auxv
    then (parse_linux_maps auxv >>= λ mappings. ok (insert_mappings mappings p))
    else ok (set_auxv auxv p)

abbrev pub ingest_cmdline : Option (List ℕ) → Process → Process
ingest_cmdline none p = p
ingest_cmdline (some cmdline) p = apply_cmdline cmdline p

unfoldable pub ingest_linux_streams : Minidump → Process → Result Process
unfolding mappings_from_minidump_linux_maps insert_mappings
ingest_linux_streams dump p = ingest_maps dump.linux_maps p >>= λ mapped.
    optional_raw_stream dump linux_auxv >>= λ auxv. ingest_auxv auxv mapped >>= λ with_auxv.
    optional_raw_stream dump linux_cmd_line >>= λ cmdline. ok (ingest_cmdline cmdline with_auxv)

abbrev pub snapshot_of : MinidumpThread → ThreadSnapshot RawContext
snapshot_of thread = record {
  tid = thread.thread_id;
  stack_address = thread.start_of_memory_range;
  stack = Option.get_or thread.stack_memory [];
  context = thread.context;
}

unfoldable pub add_threads : List MinidumpThread → Process → Process
add_threads [] p = p
add_threads (thread ∷ threads) p = add_threads threads (add_thread (snapshot_of thread) p)

unfoldable pub ingest_threads : Stream (List MinidumpThread) → Process → Process
unfolding add_threads
ingest_threads (failed error) p = p
ingest_threads (found threads) p = add_threads threads p

abbrev pub ingest_module_list : Stream (List MinidumpModule) → ConvertOptions → Process → Process
ingest_module_list (failed error) options p = p
ingest_module_list (found modules) options p = ingest_modules p modules options

unfoldable pub ingest_exception : Stream MinidumpException → Process → Process
ingest_exception (failed error) p = p
ingest_exception (found exception) p = record p {
  crashing_tid = some exception.thread_id;
  fatal_signal = exception.exception_code;
  exception_context = exception.context;
}

abbrev pub first_tid : List (ThreadSnapshot RawContext) → ℕ
first_tid [] = 0
first_tid (t ∷ ts) = t.tid

-- The process's id: the crashing thread's, or the first thread's.
unfoldable pub pid_of : Process → ℕ
pid_of p = Option.get_or p.crashing_tid (first_tid p.threads)

abbrev pub is_nil : List ℕ → Bool
is_nil [] = true
is_nil (b ∷ bs) = false

abbrev pub with_dso_debug : Option DsoDebug → Process → Process
with_dso_debug none p = p
with_dso_debug (some dso) p = record p { dso_debug = dso }

abbrev pub with_auxv : Option (List ℕ) → Process → Process
with_auxv none p = p
with_auxv (some auxv) p = set_auxv auxv p

-- Without a debug stream: a link map from the modules, and an auxiliary vector where there is none.
abbrev pub synthesize : FileSystem → Architecture → Stream (List MinidumpModule) → Process → Process
synthesize fs arch (failed error) p = p
synthesize fs arch (found modules) p =
    let linked = with_dso_debug (synthesize_dso_debug fs arch modules p.signatures) p in
    if is_nil linked.auxv then with_auxv (build_synthetic_auxv fs arch modules) linked else linked

abbrev pub ingest_dso_debug :
    Formats
    → FileSystem
    → Architecture
    → Stream (List MinidumpModule)
    → List ℕ
    → Option (List ℕ)
    → Process
    → Result Process
ingest_dso_debug formats fs arch modules full_file (some bytes) p =
    parse_dso_debug formats arch bytes full_file >>= λ dso. ok (record p { dso_debug = dso })
ingest_dso_debug formats fs arch modules full_file none p = ok (synthesize fs arch modules p)

-- What is collected before the link map: threads, modules, the exception and the process's id.
unfoldable pub collect : Minidump → ConvertOptions → Process → Process
unfolding ingest_threads ingest_exception pid_of
collect dump options p =
    let whole =
      ingest_exception dump.exception
        (ingest_module_list dump.module_list options (ingest_threads dump.thread_list p)) in
    set_pid (pid_of whole) whole

unfoldable pub read_process_from_minidump :
    Names → Formats → FileSystem → Minidump → List ℕ → ConvertOptions → Result Process
unfolding ingest_linux_streams collect
read_process_from_minidump names formats fs dump full_file options =
    required dump.system_info >>= λ system_info.
    architecture_from_system_info names system_info >>= λ architecture.
    ingest_linux_streams dump (new_process architecture) >>= λ streamed.
    optional_raw_stream dump linux_dso_debug >>= λ dso.
    ingest_dso_debug formats fs architecture dump.module_list full_file dso
      (collect dump options streamed)
