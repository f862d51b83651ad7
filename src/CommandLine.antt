-- ===== src/CommandLine.antt =====
-- src/main.rs, and `read_process_from_path` of src/rust_minidump.rs: from the arguments to the file
-- that is written.
pub mod Run
use minidump2core.Prelude.{
  ℕ, Bool, true, false, Option, none, some, List, [], ◌∷◌, ◌++◌, if◌then◌else◌,
}
use minidump2core.Error.{Result, ok, ◌>>=◌, ◌>>◌, ok_or, io}
use minidump2core.Bytes.{eq_bytes}
use minidump2core.Writer.{Write}
use minidump2core.NoteSegment.{Process}
use minidump2core.Augment.{augment_process}
use minidump2core.CoreWriter.{write_core}
use minidump2core.RustMinidump.Streams.{Names, Formats, FileSystem, Minidump, Stream}
use minidump2core.RustMinidump.System.{required}
use minidump2core.RustMinidump.Modules.{ConvertOptions}
use minidump2core.RustMinidump.Read.{read_process_from_minidump}

-- The arguments, as clap parses them; `verbose` only prints.
pub record Cli : Type 0 where
  pub so_base_dir : Option (List ℕ)
  pub mangle_sonames : Bool
  pub output : Option (List ℕ)
  pub minidump : List ℕ

-- The parameters: `Minidump::read`, the file system, and the buffered writers on a new file and on
-- standard output. An error of the system is its text, by the call that fails.
pub record Environment (W : Type 0) : Type 0 where
  pub names : Names
  pub formats : Formats
  pub fs : FileSystem
  pub read_minidump : List ℕ → Stream Minidump
  pub create_file : List ℕ → Option W
  pub stdout : W
  pub flush : W → Option W
  pub read_error : List ℕ → List ℕ
  pub create_error : List ℕ → List ℕ
  pub flush_error : W → List ℕ

pub data MangleFlag : Type 0 where
  mangle : Bool → MangleFlag
  refused : List ℕ → MangleFlag

-- `"expected 0 or 1, got "`
abbrev pub expected_text : List ℕ
expected_text =
    0x65
    ∷ (0x78
        ∷ (0x70
            ∷ (0x65
                ∷ (0x63
                    ∷ (0x74
                        ∷ (0x65
                            ∷ (0x64
                                ∷ (0x20
                                    ∷ (0x30
                                        ∷ (0x20
                                            ∷ (0x6f
                                                ∷ (0x72
                                                    ∷ (0x20
                                                        ∷ (0x31
                                                            ∷ (0x2c
                                                            ∷ (0x20
                                                            ∷ (0x67
                                                            ∷ (0x6f
                                                            ∷ (0x74 ∷ (0x20 ∷ []))))))))))))))))))))

unfoldable pub parse_mangle_flag : List ℕ → MangleFlag
parse_mangle_flag value =
    if eq_bytes value (b'0' ∷ [])
    then mangle false
    else (if eq_bytes value (b'1' ∷ []) then mangle true else refused (expected_text ++ value))

module _ {W : Type 0} (env : Environment W) where
  unfoldable pub read_process_from_path : List ℕ → ConvertOptions → Result Process
  read_process_from_path path options =
      ok_or (env.fs.read_file path) (io (env.read_error path)) >>= λ bytes.
      required (env.read_minidump bytes) >>= λ dump.
      read_process_from_minidump env.names env.formats env.fs dump bytes options

  abbrev pub open_output : Option (List ℕ) → Result W
  open_output (some path) = ok_or (env.create_file path) (io (env.create_error path))
  open_output none = ok env.stdout

  abbrev pub options_of : Cli → ConvertOptions
  options_of cli = record { mangle_sonames = cli.mangle_sonames; so_base_dir = cli.so_base_dir }

  -- The output is opened when the process is complete; the result is the flushed writer.
  unfoldable pub write_output : Write W → Option (List ℕ) → Process → Result W
  write_output wr output p = open_output output >>= λ out. write_core ⦃wr = wr⦄ p out >>= λ written.
      ok_or (env.flush written) (io (env.flush_error written))

  unfoldable pub run : Write W → Cli → Result W
  unfolding read_process_from_path write_output
  run wr cli = read_process_from_path cli.minidump (options_of cli) >>= λ p.
      (augment_process p).1 >> write_output wr cli.output (augment_process p).0
