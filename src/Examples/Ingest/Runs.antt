-- ===== src/Examples/Ingest/Runs.antt =====
-- `run` of src/main.rs on the small dump.
use minidump2core.Prelude.{ℕ, ◌+◌, ◌^◌, ◌<◌, ◌≡◌, refl, arith, some, List, [], ◌++◌, All, length}
use minidump2core.Error.{ok}
use minidump2core.Bytes.{le_bytes, resize}
use minidump2core.BTreeMap.{values}
use minidump2core.BTreeMap
use minidump2core.Writer.{vec_write}
use minidump2core.Writer.Simulation.{IsLawful}
use minidump2core.Model.Architecture.{
  long_size, is_64bit, elf_class, elf_machine, prpsinfo_uid_is_u32,
}
use minidump2core.Model.Align.{align_up, align_down, padded_vec}
use minidump2core.Model.Mapping.{new_mapping, read_write, with_file, permissions, contains}
use minidump2core.Notes.{
  nul_terminated, lacks_nul, build_note, write_note, pad_to, build_prpsinfo, build_prstatus,
  build_nt_file_payload, named_entries, push_entries, push_names, try_push_long, push_long, pad,
  push_ids, push_zeros, i16_or_max,
}
use minidump2core.Elf.{write_note_header, header_size, phdr_size}
use minidump2core.Elf.Read.{addr_size}
use minidump2core.Regs.{to_pr_reg, to_fpregset, to_prxfpreg, arm_gpregs, push_values}
use minidump2core.NoteSegment.{
  Process, build_note_segment, ordered_threads, found_thread, other_threads, find_thread, add_note,
  add_optional, write_threads, write_thread_notes, write_context_notes,
}
use minidump2core.Augment.{
  new_region, augment_process, add_stacks, add_link_map, add_data_to_mapping, split_mapping, store,
  split_offset,
}
use minidump2core.CoreWriter.{note_pad, total_data}
use minidump2core.CoreWriter.Image.{header_of, file_size}
use minidump2core.CoreWriter.Fits.{EndsBelow}
use minidump2core.CoreWriter.Readable.{IsCoreFile}
use minidump2core.CommandLine.{run}
use minidump2core.CommandLine.Run.{run-IsCoreFile, run-succeeds}
use minidump2core.Examples.Ingest.{small_dump, dump_bytes, cli, env, read, pages}

augmented :
    (q : Process) × (augment_process read.0 ≡ (q, ok tt))
    × (segment : List ℕ) × (build_note_segment q ≡ ok segment)
    × (1 + length q.mappings < 2 ^ 16)
    × (All (EndsBelow (256 ^ addr_size (header_of q).class)) (values q.mappings))
    × (file_size q segment < 256 ^ addr_size (header_of q).class)
unfolding build_note_segment add_note build_note nul_terminated lacks_nul write_note_header pad_to
    write_note add_optional build_nt_file_payload named_entries values try_push_long long_size
    is_64bit elf_class push_entries push_names ordered_threads found_thread other_threads
    find_thread write_threads write_thread_notes write_context_notes to_pr_reg arm_gpregs
    push_values to_fpregset to_prxfpreg le_bytes resize build_prpsinfo build_prstatus pad push_long
    push_zeros prpsinfo_uid_is_u32 push_ids i16_or_max header_size phdr_size total_data note_pad
    elf_machine augment_process add_stacks add_link_map add_data_to_mapping align_down padded_vec
    split_mapping store split_offset contains new_region new_mapping read_write permissions
    with_file BTreeMap.find_key BTreeMap.get BTreeMap.insert BTreeMap.adjust read align_up
augmented = (_, refl, _, refl, omega arith, ground arith, ground arith)

run-succeeds_example :
    (image : List ℕ) × (run env vec_write cli ≡ ok image) × IsCoreFile augmented.0 augmented.2 image
run-succeeds_example =
    run-succeeds env cli dump_bytes small_dump read.0 augmented.0 augmented.2 refl refl pages read.1
      augmented.1 augmented.3 augmented.4 augmented.5 augmented.6 refl (λ w. refl)

taken : (bytes w w' : List ℕ) → vec_write.write_all bytes w ≡ ok w' → w' ≡ w ++ bytes
taken bytes w w' e = ground (arith, e)

abbrev vec-IsLawful : IsLawful vec_write
vec-IsLawful = record { written = λ w. w; written-write_all = taken }

flushed : (w v : List ℕ) → env.flush w ≡ some v → v ≡ w
flushed w v e = ground (arith, e)

ran : (image : List ℕ) × (run env vec_write cli ≡ ok image)
ran =
    let (image, done, is_core) =
      run-succeeds env cli dump_bytes small_dump read.0 augmented.0 augmented.2 refl refl pages
        read.1 augmented.1 augmented.3 augmented.4 augmented.5 augmented.6 refl (λ w. refl) in
    (image, done)

run-IsCoreFile_example : IsCoreFile augmented.0 augmented.2 (vec-IsLawful.written ran.0)
run-IsCoreFile_example =
    run-IsCoreFile env cli vec_write vec-IsLawful dump_bytes small_dump read.0 augmented.0
      augmented.2 [] ran.0 refl refl pages read.1 augmented.1 augmented.3 augmented.4 augmented.5
      augmented.6 refl refl flushed ran.1
