-- ===== src/RustMinidump/Read/Table.antt =====
-- The mapping table that `read_process_from_minidump` returns.
use minidump2core.Prelude.{ℕ, ◌≡◌, refl, ap, sym, ◌∙◌, arith, Option, none, some, List, All}
use mathlib.Core.Path.{subst}
use minidump2core.Error.{ok, >>=-eq-ok, ok-injective}
use minidump2core.Model.Architecture.{Architecture}
use minidump2core.Model.Process.{new_process, set_pid}
use minidump2core.Augment.WellFormed.{WellFormed}
use minidump2core.NoteSegment.{Process}
use minidump2core.RustMinidump.Streams.{
  Names, Formats, FileSystem, Minidump, MinidumpModule, Stream, found, failed, stream_not_found,
  other_error, linux_auxv, linux_cmd_line, linux_dso_debug,
}
use minidump2core.RustMinidump.System.{
  architecture_from_system_info, optional, optional_raw_stream, required,
}
use minidump2core.RustMinidump.Modules.{ConvertOptions}
use minidump2core.RustMinidump.Modules.Table.{HasPage, ingest_modules-WellFormed}
use minidump2core.RustMinidump.LinkMaps.{parse_dso_debug}
use minidump2core.RustMinidump.Read.{
  ingest_maps, ingest_auxv, ingest_linux_streams, ingest_threads, ingest_module_list, collect,
  ingest_dso_debug, read_process_from_minidump,
}
use minidump2core.RustMinidump.Read.Streamed.{
  HasPages, ingest_maps-WellFormed, ingest_auxv-WellFormed, ingest_cmdline-WellFormed,
}
use minidump2core.RustMinidump.Read.Unmapped.{
  ingest_threads-mappings, ingest_exception-mappings, synthesize-mappings,
}

optional-some :
    (s : Stream (List ℕ)) (bytes : List ℕ) → optional s ≡ ok (some bytes) → s ≡ found bytes
optional-some (found b) bytes e = let same : some b ≡ some bytes = ok-injective e in ground arith
optional-some (failed (stream_not_found text)) bytes e =
    let same : none ≡ some bytes = ok-injective e in absurd (ground arith)
optional-some (failed (other_error text)) bytes e = absurd (ground arith)

module _ (page_size : ℕ) (dump : Minidump) (pages : HasPages page_size dump) where
  streams-WellFormed :
      (p q : Process)
      → WellFormed page_size p.mappings
      → ingest_linux_streams dump p ≡ ok q
      → WellFormed page_size q.mappings
  unfolding ingest_linux_streams optional_raw_stream
  streams-WellFormed p q w e =
      let (mapped, s, e1) = >>=-eq-ok (ingest_maps dump.linux_maps p) _ e in
      let (auxv, t, e2) = >>=-eq-ok (optional (dump.raw_stream linux_auxv)) _ e1 in
      let (taken, u, e3) = >>=-eq-ok (ingest_auxv auxv mapped) _ e2 in
      let (cmdline, v, e4) = >>=-eq-ok (optional (dump.raw_stream linux_cmd_line)) _ e3 in
      subst (λ (r : Process). WellFormed page_size r.mappings) (ok-injective e4)
        (ingest_cmdline-WellFormed page_size cmdline taken (
          ingest_auxv-WellFormed page_size auxv mapped taken
            (λ bytes ms here is_text parsed.
              pages.text_starts bytes ms
                (optional-some (dump.raw_stream linux_auxv) bytes (t ∙ ap ok here)) is_text parsed)
            (ingest_maps-WellFormed page_size dump.linux_maps p mapped pages.maps_start w s) u))

  module_list-WellFormed :
      (s : Stream (List MinidumpModule)) (options : ConvertOptions) (p : Process)
      → ((ms : List MinidumpModule) → s ≡ found ms → All (HasPage page_size) ms)
      → WellFormed page_size p.mappings
      → WellFormed page_size (ingest_module_list s options p).mappings
  module_list-WellFormed (failed error) options p h w = w
  module_list-WellFormed (found ms) options p h w =
      ingest_modules-WellFormed page_size options ms p (h ms refl) w

  collect-WellFormed :
      (options : ConvertOptions) (p : Process)
      → WellFormed page_size p.mappings
      → WellFormed page_size (collect dump options p).mappings
  unfolding collect set_pid
  collect-WellFormed options p w =
      subst (WellFormed page_size) (sym (ingest_exception-mappings dump.exception _)) (
        module_list-WellFormed dump.module_list options (ingest_threads dump.thread_list p)
          pages.modules_start
          (subst (WellFormed page_size) (sym (ingest_threads-mappings dump.thread_list p)) w))

  ingest_dso_debug-WellFormed :
      (formats : Formats) (fs : FileSystem) (arch : Architecture) (full_file : List ℕ)
      (bytes : Option (List ℕ)) (p q : Process)
      → WellFormed page_size p.mappings
      → ingest_dso_debug formats fs arch dump.module_list full_file bytes p ≡ ok q
      → WellFormed page_size q.mappings
  ingest_dso_debug-WellFormed formats fs arch full_file none p q w e =
      subst (λ (r : Process). WellFormed page_size r.mappings) (ok-injective e)
        (subst (WellFormed page_size) (sym (synthesize-mappings fs arch dump.module_list p)) w)
  ingest_dso_debug-WellFormed formats fs arch full_file (some bytes) p q w e =
      let (dso, s, e1) = >>=-eq-ok (parse_dso_debug formats arch bytes full_file) _ e in
      subst (λ (r : Process). WellFormed page_size r.mappings) (ok-injective e1) w

-- Where the ranges of the dump's maps and modules start on pages (any size of a page, and 1 asks for
-- nothing), and the maps have 64-bit ends, the table of a process that `read_process_from_minidump`
-- returns is well-formed: in the order of the keys, and each mapping under its own start, on a page,
-- not empty and with a 64-bit end.
pub read_process_from_minidump-WellFormed :
    (page_size : ℕ) (names : Names) (formats : Formats) (fs : FileSystem) (dump : Minidump)
    (full_file : List ℕ) (options : ConvertOptions) (p : Process)
    → HasPages page_size dump
    → read_process_from_minidump names formats fs dump full_file options ≡ ok p
    → WellFormed page_size p.mappings
unfolding read_process_from_minidump optional_raw_stream new_process
read_process_from_minidump-WellFormed page_size names formats fs dump full_file options p pages e =
    let (info, s, e1) = >>=-eq-ok (required dump.system_info) _ e in
    let (arch, t, e2) = >>=-eq-ok (architecture_from_system_info names info) _ e1 in
    let (streamed, u, e3) = >>=-eq-ok (ingest_linux_streams dump (new_process arch)) _ e2 in
    let (dso, v, e4) = >>=-eq-ok (optional (dump.raw_stream linux_dso_debug)) _ e3 in
    ingest_dso_debug-WellFormed page_size dump pages formats fs arch full_file dso
      (collect dump options streamed) p
      (collect-WellFormed page_size dump pages options streamed (
        streams-WellFormed page_size dump pages (new_process arch) streamed
          (record { sorted = tt; mapped = tt }) u))
      e4
