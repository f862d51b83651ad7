-- ===== src/RustMinidump/Read/Frame.antt =====
-- What taking in the streams of Linux and the modules leaves as it is.
use minidump2core.Prelude.{
  ℕ, ◌≡◌, refl, ap, sym, ◌∙◌, inl, inr, Bool-cases, Option, none, some, List, [], ◌∷◌, ltb,
}
use minidump2core.Error.{Result, ok, err, panic, ◌>>=◌, >>=-eq-ok, ok-injective}
use minidump2core.CpuContext.{RawContext}
use minidump2core.LinuxMaps.{looks_like_linux_maps, parse_linux_maps}
use minidump2core.Model.Architecture.{Architecture}
use minidump2core.Model.Mapping.{Mapping}
use minidump2core.Model.Process.{
  ThreadSnapshot, insert_mapping, insert_mapping_if_absent, set_auxv, apply_cmdline,
  apply_module_name_fallback,
}
use minidump2core.NoteSegment.{Process}
use minidump2core.RustMinidump.Streams.{
  Minidump, MapInfo, MinidumpModule, Stream, found, failed, linux_auxv, linux_cmd_line,
}
use minidump2core.RustMinidump.System.{optional, optional_raw_stream}
use minidump2core.RustMinidump.Modules.{
  ConvertOptions, signature_for, insert_if_ok, add_signature, map_module, ingest_module,
  ingest_each, first_executable, name_from, ingest_modules,
}
use minidump2core.RustMinidump.Read.{
  insert_mappings, ingest_maps, ingest_auxv, ingest_cmdline, ingest_linux_streams,
  ingest_module_list, mappings_from_minidump_linux_maps,
}

-- What the streams of threads and of the exception decide.
pub record Crash : Type 0 where
  pub architecture : Architecture
  pub threads : List (ThreadSnapshot RawContext)
  pub crashing_tid : Option ℕ
  pub exception_context : Option RawContext
  pub fatal_signal : ℕ

unfoldable pub crash_of : Process → Crash
crash_of p = record {
  architecture = p.architecture;
  threads = p.threads;
  crashing_tid = p.crashing_tid;
  exception_context = p.exception_context;
  fatal_signal = p.fatal_signal;
}

abbrev pub Same : Process → Process → Type 0
Same p q = crash_of q ≡ crash_of p

insert_mappings-Same : (ms : List Mapping) (p : Process) → Same p (insert_mappings ms p)
unfolding insert_mappings insert_mapping crash_of
insert_mappings-Same [] p = refl
insert_mappings-Same (m ∷ ms) p = insert_mappings-Same ms (insert_mapping m p)

ingest_maps-Same : (s : Stream (List MapInfo)) (p q : Process) → ingest_maps s p ≡ ok q → Same p q
ingest_maps-Same (failed error) p q e = ap crash_of (sym (ok-injective e))
ingest_maps-Same (found infos) p q e =
    let (ms, s, e1) = >>=-eq-ok (mappings_from_minidump_linux_maps infos) _ e in
    ap crash_of (sym (ok-injective e1)) ∙ insert_mappings-Same ms p

ingest_auxv-Same : (auxv : Option (List ℕ)) (p q : Process) → ingest_auxv auxv p ≡ ok q → Same p q
unfolding set_auxv crash_of
ingest_auxv-Same none p q e = ap crash_of (sym (ok-injective e))
ingest_auxv-Same (some bytes) p q e = elim (Bool-cases (looks_like_linux_maps bytes)) [
  | inl t ↦
      let parsed : (parse_linux_maps bytes >>= λ mappings. ok (insert_mappings mappings p)) ≡ ok q =
        sym (rw t refl) ∙ e in
      let (ms, s, e1) = >>=-eq-ok (parse_linux_maps bytes) _ parsed in
      ap crash_of (sym (ok-injective e1)) ∙ insert_mappings-Same ms p
  | inr f ↦
      let kept : ok (set_auxv bytes p) ≡ ok q = sym (rw f refl) ∙ e in
      ap crash_of (sym (ok-injective kept))
]

ingest_cmdline-Same : (cmdline : Option (List ℕ)) (p : Process) → Same p (ingest_cmdline cmdline p)
unfolding apply_cmdline crash_of
ingest_cmdline-Same none p = refl
ingest_cmdline-Same (some cmdline) p = refl

pub streams-Same : (dump : Minidump) (p q : Process) → ingest_linux_streams dump p ≡ ok q → Same p q
unfolding ingest_linux_streams optional_raw_stream
streams-Same dump p q e =
    let (mapped, s, e1) = >>=-eq-ok (ingest_maps dump.linux_maps p) _ e in
    let (auxv, t, e2) = >>=-eq-ok (optional (dump.raw_stream linux_auxv)) _ e1 in
    let (taken, u, e3) = >>=-eq-ok (ingest_auxv auxv mapped) _ e2 in
    let (cmdline, v, e4) = >>=-eq-ok (optional (dump.raw_stream linux_cmd_line)) _ e3 in
    ap crash_of (sym (ok-injective e4))
    ∙ ingest_cmdline-Same cmdline taken
    ∙ ingest_auxv-Same auxv mapped taken u
    ∙ ingest_maps-Same dump.linux_maps p mapped s

insert_if_ok-Same :
    (made : Result Mapping) (name : List ℕ) (p : Process) → Same p (insert_if_ok made name p)
unfolding insert_mapping_if_absent crash_of
insert_if_ok-Same (ok m) name p = refl
insert_if_ok-Same (err error) name p = refl
insert_if_ok-Same (panic message) name p = refl

map_module-Same : (m : MinidumpModule) (name : List ℕ) (p : Process) → Same p (map_module m name p)
unfolding map_module
map_module-Same m name p = elim (Bool-cases (ltb 0 m.size_of_image)) [
  | inl t ↦ rw t (insert_if_ok-Same _ name p)
  | inr f ↦ rw f refl
]

ingest_each-Same :
    (options : ConvertOptions) (ms : List MinidumpModule) (p : Process)
    → Same p (ingest_each options ms p)
unfolding ingest_each ingest_module add_signature crash_of
ingest_each-Same options [] p = refl
ingest_each-Same options (m ∷ ms) p =
    ingest_each-Same options ms (ingest_module options m p)
    ∙ map_module-Same m (signature_for m options) p

name_from-Same : (m : Option MinidumpModule) (p : Process) → Same p (name_from m p)
unfolding apply_module_name_fallback crash_of
name_from-Same none p = refl
name_from-Same (some m) p = refl

pub module_list-Same :
    (s : Stream (List MinidumpModule)) (options : ConvertOptions) (p : Process)
    → Same p (ingest_module_list s options p)
unfolding ingest_modules
module_list-Same (failed error) options p = refl
module_list-Same (found ms) options p =
    name_from-Same (first_executable ms) (ingest_each options ms p) ∙ ingest_each-Same options ms p
