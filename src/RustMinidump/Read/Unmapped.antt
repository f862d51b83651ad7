-- ===== src/RustMinidump/Read/Unmapped.antt =====
-- What leaves the mapping table as it is.
use minidump2core.Prelude.{
  ℕ, ◌≡◌, refl, ◌∙◌, inl, inr, Bool-cases, Option, none, some, List, [], ◌∷◌,
}
use minidump2core.Model.Architecture.{Architecture}
use minidump2core.Model.Process.{DsoDebug, add_thread, set_auxv}
use minidump2core.NoteSegment.{Process}
use minidump2core.RustMinidump.Streams.{
  FileSystem, MinidumpThread, MinidumpModule, MinidumpException, Stream, found, failed,
}
use minidump2core.RustMinidump.LinkMaps.{synthesize_dso_debug}
use minidump2core.RustMinidump.ElfFile.Auxv.{build_synthetic_auxv}
use minidump2core.RustMinidump.Read.{
  add_threads, ingest_threads, ingest_exception, with_dso_debug, with_auxv, synthesize, is_nil,
  snapshot_of,
}

pub add_threads-mappings :
    (ts : List MinidumpThread) (p : Process) → (add_threads ts p).mappings ≡ p.mappings
unfolding add_threads add_thread
add_threads-mappings [] p = refl
add_threads-mappings (t ∷ ts) p = add_threads-mappings ts (add_thread (snapshot_of t) p)

pub ingest_threads-mappings :
    (s : Stream (List MinidumpThread)) (p : Process) → (ingest_threads s p).mappings ≡ p.mappings
unfolding ingest_threads
ingest_threads-mappings (failed error) p = refl
ingest_threads-mappings (found ts) p = add_threads-mappings ts p

pub ingest_exception-mappings :
    (s : Stream MinidumpException) (p : Process) → (ingest_exception s p).mappings ≡ p.mappings
unfolding ingest_exception
ingest_exception-mappings (failed error) p = refl
ingest_exception-mappings (found x) p = refl

pub with_dso_debug-mappings :
    (o : Option DsoDebug) (p : Process) → (with_dso_debug o p).mappings ≡ p.mappings
with_dso_debug-mappings none p = refl
with_dso_debug-mappings (some dso) p = refl

pub with_auxv-mappings : (o : Option (List ℕ)) (p : Process) → (with_auxv o p).mappings ≡ p.mappings
unfolding set_auxv
with_auxv-mappings none p = refl
with_auxv-mappings (some auxv) p = refl

pub synthesize-mappings :
    (fs : FileSystem) (arch : Architecture) (s : Stream (List MinidumpModule)) (p : Process)
    → (synthesize fs arch s p).mappings ≡ p.mappings
synthesize-mappings fs arch (failed error) p = refl
synthesize-mappings fs arch (found ms) p =
    let linked = with_dso_debug (synthesize_dso_debug fs arch ms p.signatures) p in
    elim (Bool-cases (is_nil linked.auxv)) [
      | inl t ↦ rw t (
          with_auxv-mappings (build_synthetic_auxv fs arch ms) linked
          ∙ with_dso_debug-mappings (synthesize_dso_debug fs arch ms p.signatures) p)
      | inr f ↦ rw f (with_dso_debug-mappings (synthesize_dso_debug fs arch ms p.signatures) p)
    ]
