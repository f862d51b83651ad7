-- ===== src/Examples/Ingest.antt =====
-- `read_process_from_minidump` of src/rust_minidump.rs on a small dump.
mod Runs
mod Merge
use minidump2core.Prelude.{
  ℕ, ◌%◌, ◌≡◌, refl, ap, ◌∙◌, arith, true, false, none, some, List, [], ◌∷◌, All, replicate,
}
use minidump2core.Error.{ok}
use minidump2core.Bytes.{IsU64, eq_bytes, rposition, copy_front}
use minidump2core.BTreeMap.{values}
use minidump2core.BTreeMap
use minidump2core.CpuContext.{ContextArm, arm_context}
use minidump2core.Writer.{vec_write}
use minidump2core.Model.Architecture.{Architecture, is_64bit, elf_class}
use minidump2core.Model.Mapping.{default_page_size, new_mapping, with_file, read_only, permissions}
use minidump2core.Model.ProcessInfo.{basename, after_last_slash, new_info}
use minidump2core.Model.ProcessInfo
use minidump2core.Model.Process.{
  new_process, insert_mapping, insert_mapping_if_absent, add_thread, set_auxv, set_pid,
  no_dso_debug, apply_module_name_fallback,
}
use minidump2core.NoteSegment.{Process}
use minidump2core.Augment.WellFormed.{WellFormed}
use minidump2core.LinuxMaps.{looks_like_linux_maps}
use minidump2core.Text.Split.{starts_with}
use mathlib.Core.Path.{subst}
use minidump2core.RustMinidump.Streams.{
  bad_read, linux, Cpu, SystemInfo, Stream, found, failed, stream_not_found, RawStream, linux_auxv,
  linux_cmd_line, linux_dso_debug, MapInfo, MinidumpThread, MinidumpModule, Minidump, FileSystem,
  Layouts, Formats, Names,
}
use minidump2core.RustMinidump.System.{
  required, architecture_from_system_info, architecture_from_cpu_os, architecture_of_cpu,
  is_supported_os, optional_raw_stream,
}
use minidump2core.RustMinidump.SharedLib.{looks_like_shared_lib, shared_lib_loop, all_digits}
use minidump2core.RustMinidump.Modules.{
  signature_for, map_module, add_signature, ingest_module, ingest_each, first_executable,
  ingest_modules,
}
use minidump2core.RustMinidump.Modules.Table.{HasPage}
use minidump2core.RustMinidump.LinkMaps.{parse_dso_debug}
use minidump2core.RustMinidump.Read.{
  mappings_from_minidump_linux_maps, mapping_of_info, insert_mappings, ingest_linux_streams,
  ingest_threads, add_threads, ingest_exception, collect, pid_of, read_process_from_minidump,
}
use minidump2core.RustMinidump.Read.Streamed.{HasPages}
use minidump2core.RustMinidump.Read.Table.{read_process_from_minidump-WellFormed}
use minidump2core.RustMinidump.Read.Frame.{crash_of}
use minidump2core.RustMinidump.Read.Contents.{
  crash_in, threads_in, pid_in, read_process_from_minidump-crash_in,
}
use minidump2core.CommandLine.{Cli, Environment, options_of}
use minidump2core.CommandLine.Run.{read_dump}

abbrev pub registers : ContextArm
registers = record {
  iregs = 0 ∷ 1 ∷ 2 ∷ 3 ∷ 4 ∷ 5 ∷ 6 ∷ 7 ∷ 8 ∷ 9 ∷ 10 ∷ 11 ∷ 12 ∷ 13 ∷ 14 ∷ 15 ∷ [];
  cpsr = 16;
}

abbrev pub app : MinidumpModule
app = record {
  base_of_image = 0x30000;
  size_of_image = 0x1000;
  name = b'/' ∷ b'a' ∷ [];
  codeview_info = none;
}

abbrev pub code : MapInfo
code = record {
  start = 0x10000;
  end_address = 0x12000;
  offset = 0x1000;
  pathname = some (b'/' ∷ b'c' ∷ []);
  is_readable = true;
  is_writable = false;
  is_executable = true;
}

abbrev pub main_thread : MinidumpThread
main_thread = record {
  thread_id = 5;
  start_of_memory_range = 0x20000;
  stack_memory = some (replicate 4 1);
  context = some (arm_context registers);
}

-- The debug stream is there and empty.
abbrev pub raw : RawStream → Stream (List ℕ)
raw linux_auxv = found (6 ∷ 0 ∷ 0 ∷ 0 ∷ [])
raw linux_cmd_line = failed (stream_not_found [])
raw linux_dso_debug = found []

abbrev pub small_dump : Minidump
small_dump = record {
  system_info = found (record { os = linux; cpu = Cpu.arm });
  linux_maps = found (code ∷ []);
  raw_stream = raw;
  thread_list = found (main_thread ∷ []);
  module_list = found (app ∷ []);
  exception = found (record { thread_id = 5; exception_code = 11; context = none });
}

abbrev pub names : Names
names = record { os_name = λ os. []; cpu_name = λ cpu. [] }

abbrev pub layouts : Layouts
layouts = record {
  size_of_dso_debug = 24;
  size_of_link_map = 12;
  pread_dso_debug = λ bytes off. bad_read [];
  pread_link_map = λ bytes off. bad_read [];
}

abbrev pub formats : Formats
formats = record {
  layouts_32 = layouts;
  layouts_64 = layouts;
  pread_u32 = λ bytes off. bad_read [];
}

abbrev pub dump_bytes : List ℕ
dump_bytes = b'M' ∷ b'D' ∷ []

abbrev pub disk : FileSystem
disk = record { metadata_is_ok = λ path. false; read_file = λ path. some dump_bytes }

abbrev pub cli : Cli
cli = record { so_base_dir = none; mangle_sonames = false; output = none; minidump = b'd' ∷ [] }

abbrev pub env : Environment (List ℕ)
env = record {
  names = names;
  formats = formats;
  fs = disk;
  read_minidump = λ bytes. found small_dump;
  create_file = λ path. none;
  stdout = [];
  flush = λ w. some w;
  read_error = λ path. [];
  create_error = λ path. [];
  flush_error = λ w. [];
}

pub read : (p : Process) × (read_dump env cli small_dump dump_bytes ≡ ok p)
unfolding read_process_from_minidump architecture_from_system_info architecture_from_cpu_os
    architecture_of_cpu is_supported_os optional_raw_stream ingest_linux_streams
    mappings_from_minidump_linux_maps mapping_of_info new_mapping with_file read_only permissions
    insert_mappings insert_mapping insert_mapping_if_absent looks_like_linux_maps set_auxv collect
    ingest_threads add_threads add_thread ingest_modules ingest_each ingest_module map_module
    add_signature signature_for first_executable looks_like_shared_lib shared_lib_loop rposition
    all_digits eq_bytes basename after_last_slash apply_module_name_fallback
    ProcessInfo.apply_module_name_fallback copy_front ingest_exception pid_of set_pid new_process
    new_info no_dso_debug parse_dso_debug is_64bit elf_class BTreeMap.get BTreeMap.insert
    BTreeMap.or_insert starts_with
read = (_, refl)

maps_pages :
    (infos : List MapInfo)
    → small_dump.linux_maps ≡ found infos
    → All (λ (i : MapInfo). (i.start % default_page_size ≡ 0) × IsU64 i.end_address) infos
maps_pages infos e =
    let same : code ∷ [] ≡ infos = cc in
    subst (All (λ (i : MapInfo). (i.start % default_page_size ≡ 0) × IsU64 i.end_address)) same
      ((omega arith, omega arith), tt)

modules_pages :
    (ms : List MinidumpModule)
    → small_dump.module_list ≡ found ms
    → All (HasPage default_page_size) ms
modules_pages ms e =
    let same : app ∷ [] ≡ ms = cc in subst (All (HasPage default_page_size)) same (omega arith, tt)

no_text :
    (bytes : List ℕ)
    → small_dump.raw_stream linux_auxv ≡ found bytes
    → ¬ (looks_like_linux_maps bytes ≡ true)
unfolding looks_like_linux_maps
no_text bytes e h =
    let same : 6 ∷ 0 ∷ 0 ∷ 0 ∷ [] ≡ bytes = cc in
    let short : looks_like_linux_maps (6 ∷ 0 ∷ 0 ∷ 0 ∷ []) ≡ true =
      ap looks_like_linux_maps same ∙ h in
    absurd (ground arith)

pub pages : HasPages default_page_size small_dump
pages = record {
  maps_start = maps_pages;
  text_starts = λ bytes ms e h parsed. absurd (no_text bytes e h);
  modules_start = modules_pages;
}

read_process_from_minidump-WellFormed_example : WellFormed default_page_size read.0.mappings
read_process_from_minidump-WellFormed_example =
    read_process_from_minidump-WellFormed default_page_size names formats disk small_dump dump_bytes
      (options_of env cli) read.0 pages read.1

read_process_from_minidump-crash_in_example :
    (info : SystemInfo) × (arch : Architecture) × (required small_dump.system_info ≡ ok info)
    × (architecture_from_system_info names info ≡ ok arch)
    × (crash_of read.0 ≡ crash_in arch small_dump.exception (threads_in small_dump.thread_list))
    × (read.0.process_info.pid
        ≡ pid_in (crash_in arch small_dump.exception (threads_in small_dump.thread_list)))
read_process_from_minidump-crash_in_example =
    read_process_from_minidump-crash_in names formats disk small_dump dump_bytes
      (options_of env cli) read.0 read.1
