-- ===== src/Lib.antt =====
-- minidump2core turns a minidump into an ELF core file that a debugger reads. This library models the
-- program from the bytes of the minidump's streams to the bytes of the core file, and proves what a
-- reader of core files finds in the result.
--
-- The parts and their files. The program collects a process from the minidump's streams
-- (src/rust_minidump.rs, src/linux_maps.rs), adds captured stacks and a rebuilt link map to its
-- mappings (src/augment.rs), and writes the core file (src/core_writer.rs), for which it builds notes
-- (src/notes.rs) from register sets (src/regs.rs) and ELF structures (src/elf.rs). src/main.rs calls
-- these one after the other.
--
--   * Model and its children are src/model.rs: `CrashedProcess`, `Mapping`, `ProcessInfo`,
--     `ThreadSnapshot`, `DsoDebug`, `Architecture`, and `align_up`, `align_down`, `padded_vec`. A method
--     on `&mut self` is a function that returns the changed record.
--   * Elf is src/elf.rs: `write_elf_header`, `write_program_header` and `write_note_header` are the
--     three `write` methods. Elf.Header and Elf.Read read the headers back.
--   * Notes is src/notes.rs: `build_note` is `Note::build`. Its children have a reader for each format.
--   * Regs is src/regs.rs, and CpuContext the structures of the minidump crate that it reads.
--     Regs.UserRegs has the kernel's register arrays of the targets other than mips64.
--   * Augment is `add_data_to_mapping` and `augment_process` of src/augment.rs, Augment.LinkMap is
--     `build_link_map_blob` and Augment.Dynamic is `patch_dt_debug`.
--   * NoteSegment is `build_note_segment` and `write_thread_notes` of src/core_writer.rs, CoreWriter is
--     `write_core`. CoreWriter.Image is the file as one list of bytes.
--   * LinuxMaps is src/linux_maps.rs; LinuxMaps.Printed is the text as the kernel prints it.
--   * RustMinidump is src/rust_minidump.rs. Streams has the parameters, System the checks of the system
--     and of a raw stream, Modules `ingest_modules` and `signature_for`, SharedLib
--     `looks_like_shared_lib`, ElfFile the readers of the modules' files (ElfFile.Runtime
--     `elf_dynamic_runtime_addr` and `read_executable_dynamic`, ElfFile.Auxv `build_synthetic_auxv`),
--     LinkMaps `parse_dso_debug` and `synthesize_dso_debug`, and Read `read_process_from_minidump` with
--     the functions that take in a stream. What the three readers of program headers have in common
--     (the checks, the table, the loop) is one definition, and so is what `read_link_map_64` and
--     `read_link_map_32` have.
--   * CommandLine is `run` and `parse_mangle_flag` of src/main.rs, with `read_process_from_path`.
--   * Error is src/error.rs. Writer is `std::io::Write`, BTreeMap is the standard library's map, Bytes
--     has the byte strings, and Text what the standard library does with text. Prelude and Padding have
--     shared lemmas. Examples has the concrete inputs.
--
-- Numbers, bounds and fuel. Integers are natural numbers; where the source checks or converts a width, so
-- does the model. `usize` has 64 bits, and lengths of vectors are added without a wrap, since memory
-- bounds them. `end_address - start_address` in `write_core`, `aligned_address - key` in
-- `add_data_to_mapping` and `base + size` in `ingest_modules` wrap at 2 ^ 64 as in a release build.
-- An offset such as `o + 16` in a file is not wrapped: the `u32` at `o` has been read before. A
-- signal, an `i32`, is its bit pattern. Strings are their UTF-8 bytes, and a `&str` that is taken
-- apart its characters. There is fuel in two places. `patch_from` has one unit for each entry, of
-- which the data has fewer than bytes, and the length of the data is given. `shared_lib_loop` has one
-- unit for each round, each round leaves fewer bytes than the last, and the length and one are given.
-- Other loops are structural.
--
-- Parameters. A writer is a record with `write_all`; what a caller may rely on is `IsLawful`. The bytes of
-- `float_save` of an AMD64 context are decoded by the scroll crate, and enter as the result of that.
-- What the minidump and procfs crates return for a dump is the record `Minidump`, what the file system
-- returns is `FileSystem`, the same during a whole run, and the structs of minidump_common, with what the scroll crate reads at an
-- offset, are `Formats`; `ReadsU32` is its documented behaviour for a `u32`. The arguments that clap
-- parses are the record `Cli`, and a buffered writer on a new file or on standard output is a part of
-- `Environment`. Errors of other crates are their text. `panic` is the end of a call by a failed
-- `expect`.
--
-- Not modelled: the verbose output; what a writer holds after a failure, which every caller drops; the
-- display of errors, the exit code and clap's parsing in src/main.rs.
pub mod Prelude
pub mod Bytes
pub mod Text
pub mod Padding
pub mod Error
pub mod Writer
pub mod BTreeMap
pub mod Model
pub mod Elf
pub mod Notes
pub mod CpuContext
pub mod Regs
pub mod Augment
pub mod NoteSegment
pub mod LinuxMaps
pub mod RustMinidump
pub mod CommandLine
pub mod CoreWriter
pub mod Examples
