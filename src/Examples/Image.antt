-- ===== src/Examples/Image.antt =====
-- `write_core` of src/core_writer.rs and its note segment for a process of one thread.
use minidump2core.Prelude.{
  ℕ, ◌+◌, ◌^◌, ◌<◌, ◌≡◌, refl, arith, true, false, none, some, List, [], ◌∷◌, length, All,
  replicate,
}
use minidump2core.Error.{ok}
use minidump2core.BTreeMap.{values}
use minidump2core.BTreeMap
use minidump2core.Model.Align.{align_down, padded_vec}
use minidump2core.Model.Mapping.{contains}
use minidump2core.Augment.{
  augment_process, add_stacks, add_link_map, add_data_to_mapping, split_mapping, store,
  split_offset,
}
use minidump2core.Augment.WellFormed.{WellFormed}
use minidump2core.CoreWriter.Augmented.{augmented-IsCoreFile}
use minidump2core.Bytes.{le_bytes, resize}
use minidump2core.Writer.{vec_write}
use minidump2core.Model.Architecture.{arm, long_size, is_64bit, elf_class, prpsinfo_uid_is_u32}
use minidump2core.Model.Mapping.{Mapping}
use minidump2core.CpuContext.{ContextArm, arm_context}
use minidump2core.Notes.{
  nul_terminated, lacks_nul, build_prpsinfo, build_prstatus, build_nt_file_payload, named_entries,
  push_entries, push_names, try_push_long, push_long, pad, push_ids, push_zeros, i16_or_max,
}
use minidump2core.Regs.{to_pr_reg, to_fpregset, to_prxfpreg, arm_gpregs, push_values}
use minidump2core.NoteSegment.{
  Process, build_note_segment, ordered_threads, found_thread, other_threads, find_thread,
}
use minidump2core.NoteSegment.Specs.{
  NoteSpec, process_notes, context_notes, later_notes, threads_notes, parse_notes, Fits,
}
use minidump2core.NoteSegment.Contents.{build_note_segment-notes}
use minidump2core.Notes.{build_note, pad_to, write_note}
use minidump2core.Elf.{write_note_header, header_size, phdr_size}
use minidump2core.Elf.Read.{addr_size}
use minidump2core.Model.Architecture.{elf_machine}
use minidump2core.NoteSegment.{
  add_note, add_optional, write_threads, write_thread_notes, write_context_notes,
}
use minidump2core.CoreWriter.{note_pad, total_data, write_core}
use minidump2core.CoreWriter.Image.{header_of, file_size}
use minidump2core.CoreWriter.Image.Loads.{IsRange}
use minidump2core.CoreWriter.Fits.{EndsBelow}
use minidump2core.CoreWriter.Readable.{IsCoreFile, write_core-IsCoreFile}

abbrev registers : ContextArm
registers = record {
  iregs = 0 ∷ 1 ∷ 2 ∷ 3 ∷ 4 ∷ 5 ∷ 6 ∷ 7 ∷ 8 ∷ 9 ∷ 10 ∷ 11 ∷ 12 ∷ 13 ∷ 14 ∷ 15 ∷ [];
  cpsr = 16;
}

abbrev library : Mapping
library = record {
  start_address = 65536;
  end_address = 73728;
  offset = 4096;
  permissions = record { read = true; write = false; execute = true };
  filename = some (b'l' ∷ b'i' ∷ b'b' ∷ []);
  bytes = [];
}

abbrev stack : Mapping
stack = record {
  start_address = 131072;
  end_address = 135168;
  offset = 0;
  permissions = record { read = true; write = true; execute = false };
  filename = none;
  bytes = replicate 16 1;
}

abbrev crashed : Process
crashed = record {
  architecture = arm;
  mappings = (65536, library) ∷ (131072, stack) ∷ [];
  threads =
      record { tid = 5; stack_address = 131072; stack = []; context = some (arm_context registers) }
      ∷ [];
  auxv = 6 ∷ 0 ∷ 0 ∷ 0 ∷ [];
  process_info = record { filename = replicate 16 0; arguments = replicate 80 0; pid = 5 };
  crashing_tid = some 5;
  exception_context = none;
  fatal_signal = 11;
  dso_debug = record {
    version = 0;
    brk = 0;
    ldbase = 0;
    dynamic = 0;
    link_map = [];
    dynamic_data = [];
  };
  signatures = [];
}

crashed_notes : (ns : List NoteSpec) × (process_notes crashed ≡ ok ns) × (All Fits ns)
unfolding process_notes build_nt_file_payload named_entries values try_push_long long_size is_64bit
    elf_class push_entries push_names ordered_threads found_thread other_threads find_thread
    threads_notes later_notes context_notes to_pr_reg arm_gpregs push_values to_fpregset to_prxfpreg
    le_bytes resize build_prpsinfo build_prstatus pad push_long push_zeros prpsinfo_uid_is_u32
    push_ids nul_terminated lacks_nul i16_or_max
crashed_notes = (_, refl, ground arith)

build_note_segment-notes_example :
    (segment : List ℕ) × (build_note_segment crashed ≡ ok segment)
    × (parse_notes (length crashed_notes.0) segment ≡ (crashed_notes.0, []))
build_note_segment-notes_example =
    build_note_segment-notes crashed crashed_notes.0 crashed_notes.1 crashed_notes.2

abbrev word : ℕ
word = addr_size (header_of crashed).class

crashed_segment :
    (segment : List ℕ) × (build_note_segment crashed ≡ ok segment)
    × (file_size crashed segment < 256 ^ word)
unfolding build_note_segment add_note build_note nul_terminated lacks_nul write_note_header pad_to
    write_note add_optional build_nt_file_payload named_entries values try_push_long long_size
    is_64bit elf_class push_entries push_names ordered_threads found_thread other_threads
    find_thread write_threads write_thread_notes write_context_notes to_pr_reg arm_gpregs
    push_values to_fpregset to_prxfpreg le_bytes resize build_prpsinfo build_prstatus pad push_long
    push_zeros prpsinfo_uid_is_u32 push_ids i16_or_max header_size phdr_size total_data note_pad
    elf_machine
crashed_segment = (_, refl, ground arith)

crashed_ranges : All IsRange (values crashed.mappings)
unfolding values
crashed_ranges = ground arith

crashed_ends : All (EndsBelow (256 ^ word)) (values crashed.mappings)
unfolding values elf_class
crashed_ends = ground arith

write_core-IsCoreFile_example :
    (image : List ℕ) × (write_core crashed [] ≡ ok image)
    × IsCoreFile crashed crashed_segment.0 image
write_core-IsCoreFile_example =
    write_core-IsCoreFile crashed crashed_segment.0 crashed_segment.1 (omega arith) crashed_ranges
      crashed_ends crashed_segment.2

-- The process above before its stack is captured.
abbrev uncaptured : Process
uncaptured = record crashed {
  mappings = (65536, library) ∷ (131072, record stack { bytes = [] }) ∷ [];
  threads =
      record {
        tid = 5;
        stack_address = 131072;
        stack = replicate 16 1;
        context = some (arm_context registers);
      }
      ∷ [];
}

uncaptured-WellFormed : WellFormed 4096 uncaptured.mappings
uncaptured-WellFormed = record {
  sorted = ((omega arith, tt), (tt, tt));
  mapped = (
    record { keyed = refl; aligned = omega arith; ranged = omega arith; bounded = omega arith },
    (
      record { keyed = refl; aligned = omega arith; ranged = omega arith; bounded = omega arith },
      tt,
    ),
  );
}

captured :
    (augmented : Process) × (augment_process uncaptured ≡ (augmented, ok tt))
    × (segment : List ℕ) × (build_note_segment augmented ≡ ok segment)
    × (1 + length augmented.mappings < 2 ^ 16)
    × (All (EndsBelow (256 ^ addr_size (header_of augmented).class)) (values augmented.mappings))
    × (file_size augmented segment < 256 ^ addr_size (header_of augmented).class)
unfolding build_note_segment add_note build_note nul_terminated lacks_nul write_note_header pad_to
    write_note add_optional build_nt_file_payload named_entries values try_push_long long_size
    is_64bit elf_class push_entries push_names ordered_threads found_thread other_threads
    find_thread write_threads write_thread_notes write_context_notes to_pr_reg arm_gpregs
    push_values to_fpregset to_prxfpreg le_bytes resize build_prpsinfo build_prstatus pad push_long
    push_zeros prpsinfo_uid_is_u32 push_ids i16_or_max header_size phdr_size total_data note_pad
    elf_machine augment_process add_stacks add_link_map add_data_to_mapping align_down padded_vec
    split_mapping store split_offset contains BTreeMap.find_key BTreeMap.get BTreeMap.insert
    BTreeMap.adjust
captured = (_, refl, _, refl, omega arith, ground arith, ground arith)

augmented-IsCoreFile_example :
    (image : List ℕ) × (write_core captured.0 [] ≡ ok image)
    × IsCoreFile captured.0 captured.2 image
augmented-IsCoreFile_example =
    augmented-IsCoreFile uncaptured captured.0 captured.2 uncaptured-WellFormed captured.1
      captured.3 captured.4 captured.5 captured.6
