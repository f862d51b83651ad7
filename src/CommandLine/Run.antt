-- ===== src/CommandLine/Run.antt =====
-- `run` of src/main.rs, from the minidump's bytes to the bytes of the core file.
use minidump2core.Prelude.{
  ℕ, ◌+◌, ◌^◌, ◌<◌, ◌≡◌, refl, ap, sym, ◌∙◌, arith, Option, none, some, List, [], length, All,
}
use mathlib.Core.Path.{subst}
use minidump2core.Error.{Md2CoreError, Result, ok, ◌>>◌, >>=-eq-ok, ok-injective, ok_or, io}
use minidump2core.BTreeMap.{values}
use minidump2core.Writer.{Write, vec_write}
use minidump2core.Writer.Simulation.{IsLawful}
use minidump2core.Elf.Read.{addr_size}
use minidump2core.Model.Mapping.{default_page_size}
use minidump2core.NoteSegment.{Process, build_note_segment}
use minidump2core.Augment.{augment_process}
use minidump2core.CoreWriter.{write_core}
use minidump2core.CoreWriter.Image.{header_of, file_size}
use minidump2core.CoreWriter.Fits.{EndsBelow}
use minidump2core.CoreWriter.Readable.{IsCoreFile}
use minidump2core.CoreWriter.Augmented.{augmented-IsCoreFile}
use minidump2core.CoreWriter.Simulation.{write_core_written}
use minidump2core.RustMinidump.Streams.{Minidump, found}
use minidump2core.RustMinidump.Read.{read_process_from_minidump}
use minidump2core.RustMinidump.Read.Streamed.{HasPages}
use minidump2core.RustMinidump.Read.Table.{read_process_from_minidump-WellFormed}
use minidump2core.CommandLine.{
  Cli, Environment, read_process_from_path, open_output, options_of, write_output, run,
}

ok_or-some {ℓ} :
    {A : Type ℓ} (o : Option A) (e : Md2CoreError) {a : A} → ok_or o e ≡ ok a → o ≡ some a
ok_or-some none e h = absurd (ground arith)
ok_or-some (some b) e h = ap some (ok-injective h)

module _ {W : Type 0} (env : Environment W) (cli : Cli) where
  -- The call that reads the dump of the command line.
  abbrev pub read_dump : Minidump → List ℕ → Result Process
  read_dump dump bytes =
      read_process_from_minidump env.names env.formats env.fs dump bytes (options_of env cli)

  read_path :
      (bytes : List ℕ) (dump : Minidump) (p : Process)
      → env.fs.read_file cli.minidump ≡ some bytes
      → env.read_minidump bytes ≡ found dump
      → read_dump dump bytes ≡ ok p
      → read_process_from_path env cli.minidump (options_of env cli) ≡ ok p
  unfolding read_process_from_path
  read_path bytes dump p h k e = rw h (rw k e)

  -- Where the process is read and augmented, the rest is the output.
  run-write_output :
      (wr : Write W) (bytes : List ℕ) (dump : Minidump) (p augmented : Process)
      → env.fs.read_file cli.minidump ≡ some bytes
      → env.read_minidump bytes ≡ found dump
      → read_dump dump bytes ≡ ok p
      → augment_process p ≡ (augmented, ok tt)
      → run env wr cli ≡ write_output env wr cli.output augmented
  unfolding run
  run-write_output wr bytes dump p augmented h k e a =
      rw (read_path bytes dump p h k e)
        (ap (λ (o : Process × Result (Unit {0})). o.1 >> write_output env wr cli.output o.0) a)

-- Where the dump can be read and its ranges start on pages, the process is augmented without an error
-- and then has notes, mappings that can be counted in 16 bits and a file that fits the target's
-- addresses, and the output is a new writer that keeps what it is given and flushes it, a run that
-- succeeds has written a file in which a reader of core files finds the notes and every mapping of the
-- augmented process, and nothing else.
pub run-IsCoreFile :
    {W : Type 0} (env : Environment W) (cli : Cli) (wr : Write W) (law : IsLawful wr)
    (bytes : List ℕ) (dump : Minidump) (p augmented : Process) (notes : List ℕ) (fresh last : W)
    → env.fs.read_file cli.minidump ≡ some bytes
    → env.read_minidump bytes ≡ found dump
    → HasPages default_page_size dump
    → read_dump env cli dump bytes ≡ ok p
    → augment_process p ≡ (augmented, ok tt)
    → build_note_segment augmented ≡ ok notes
    → 1 + length augmented.mappings < 2 ^ 16
    → All (EndsBelow (256 ^ addr_size (header_of augmented).class)) (values augmented.mappings)
    → file_size augmented notes < 256 ^ addr_size (header_of augmented).class
    → open_output env cli.output ≡ ok fresh
    → law.written fresh ≡ []
    → ((w v : W) → env.flush w ≡ some v → law.written v ≡ law.written w)
    → run env wr cli ≡ ok last
    → IsCoreFile augmented notes (law.written last)
unfolding write_output
run-IsCoreFile env cli wr law bytes dump p augmented notes fresh last h k pages e a built counted
      ends size opened empty keeps ran =
    let (image, made, is_core) =
      augmented-IsCoreFile p augmented notes
        (read_process_from_minidump-WellFormed default_page_size env.names env.formats env.fs dump
          bytes (options_of env cli) p pages e)
        a built counted ends size in
    let outputs = sym (run-write_output env cli wr bytes dump p augmented h k e a) ∙ ran in
    let (out, o, e1) = >>=-eq-ok (open_output env cli.output) _ outputs in
    let (written, w, e2) = >>=-eq-ok (write_core ⦃wr = wr⦄ augmented out) _ e1 in
    let flushed = ok_or-some (env.flush written) (io (env.flush_error written)) e2 in
    let same : out ≡ fresh = ok-injective (sym o ∙ opened) in
    let start : law.written out ≡ [] = ap law.written same ∙ empty in
    let vector = write_core_written wr law augmented out written w in
    let here : image ≡ law.written written =
      ok-injective (sym made ∙ ap (write_core ⦃wr = vec_write⦄ augmented) (sym start) ∙ vector) in
    subst (IsCoreFile augmented notes) (here ∙ sym (keeps written last flushed)) is_core

-- Under the same conditions on the dump and the process, where the output is an empty buffer that
-- takes everything and is flushed as it is, the run succeeds, and its output is such a file.
pub run-succeeds :
    (env : Environment (List ℕ)) (cli : Cli) (bytes : List ℕ) (dump : Minidump)
    (p augmented : Process) (notes : List ℕ)
    → env.fs.read_file cli.minidump ≡ some bytes
    → env.read_minidump bytes ≡ found dump
    → HasPages default_page_size dump
    → read_dump env cli dump bytes ≡ ok p
    → augment_process p ≡ (augmented, ok tt)
    → build_note_segment augmented ≡ ok notes
    → 1 + length augmented.mappings < 2 ^ 16
    → All (EndsBelow (256 ^ addr_size (header_of augmented).class)) (values augmented.mappings)
    → file_size augmented notes < 256 ^ addr_size (header_of augmented).class
    → open_output env cli.output ≡ ok []
    → ((w : List ℕ) → env.flush w ≡ some w)
    → (image : List ℕ) × (run env vec_write cli ≡ ok image) × IsCoreFile augmented notes image
unfolding write_output
run-succeeds env cli bytes dump p augmented notes h k pages e a built counted ends size opened
      flushes =
    let (image, made, is_core) =
      augmented-IsCoreFile p augmented notes
        (read_process_from_minidump-WellFormed default_page_size env.names env.formats env.fs dump
          bytes (options_of env cli) p pages e)
        a built counted ends size in
    let output : write_output env vec_write cli.output augmented ≡ ok image =
      rw opened (rw made (rw (flushes image) refl)) in
    (image, run-write_output env cli vec_write bytes dump p augmented h k e a ∙ output, is_core)
