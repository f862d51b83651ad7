-- ===== src/Examples/Tables.antt =====
-- The functions of src/augment.rs on a table of one mapping, and on a small dynamic section.
use minidump2core.Prelude.{ℕ, ◌+◌, ◌*◌, ◌≡◌, ◌≢◌, refl, arith, none, some, List, [], ◌∷◌, ◌++◌}
use minidump2core.Error.{ok}
use minidump2core.BTreeMap.{BTreeMap}
use minidump2core.BTreeMap
use minidump2core.Model.Architecture.{x86, x86_64, long_size, is_64bit, elf_class}
use minidump2core.Model.Mapping.{Mapping, contains, default_page_size, no_permissions}
use minidump2core.Model.Align.{align_down}
use minidump2core.Model.Process.{DsoDebug, LinkMapEntry}
use minidump2core.NoteSegment.{Process}
use minidump2core.Augment.{Mappings, add_data_to_mapping, augment_process}
use minidump2core.Augment.WellFormed.{WellFormed, IsMapped, add_data_to_mapping-WellFormed}
use minidump2core.Augment.WholePass.{augment_process-WellFormed}
use minidump2core.Augment.Captured.{Captures, add_data_to_mapping-captured}
use minidump2core.Augment.Frame.{add_data_to_mapping-keeps}
use minidump2core.Augment.LinkMap.{
  filename_padded_size, name_for, link_map_addr, build_link_map_blob,
}
use minidump2core.Augment.LinkMap.Chain.{record_size, records_size, word_at, IsChain}
use minidump2core.Augment.LinkMap.Build.{BlobFits, build_link_map_blob-IsChain}
use minidump2core.Augment.Dynamic.{patch_dt_debug}
use minidump2core.Augment.Dynamic.Entries.{dyn_bytes, patched, DynEntry}
use minidump2core.Augment.Dynamic.Patch.{patch_dt_debug-patched}

-- Two pages of a file, at 0x10000.
abbrev library : Mapping
library = record {
  start_address = 65536;
  end_address = 73728;
  offset = 4096;
  permissions = no_permissions;
  filename = some (b'l' ∷ b'i' ∷ b'b' ∷ []);
  bytes = [];
}

abbrev table : Mappings
table = (65536, library) ∷ []

library-IsMapped : IsMapped 4096 65536 library
library-IsMapped = record {
  keyed = refl;
  aligned = omega arith;
  ranged = omega arith;
  bounded = omega arith;
}

table-WellFormed : WellFormed 4096 table
table-WellFormed = record { sorted = (tt, tt); mapped = (library-IsMapped, tt) }

abbrev captured : List ℕ
captured = 1 ∷ 2 ∷ 3 ∷ []

-- In the second page, so that the mapping is split.
abbrev address : ℕ
address = 69700

address_page : align_down address 4096 ≡ ok 69632
unfolding align_down
address_page = refl

add_data_to_mapping-WellFormed_example :
    WellFormed 4096 (add_data_to_mapping table captured address 4096).0
add_data_to_mapping-WellFormed_example =
    add_data_to_mapping-WellFormed 4096 (omega arith) table captured address table-WellFormed

add_data_to_mapping-captured_example :
    Captures 4096 69632 address captured (add_data_to_mapping table captured address 4096)
add_data_to_mapping-captured_example =
    add_data_to_mapping-captured table captured address 4096 69632 table-WellFormed (omega arith)
      (omega arith) (omega arith) (omega arith, tt) address_page

-- An address outside, which no mapping contains.
outside : BTreeMap.find_key (λ m. contains m 200000) table ≢ some 65536
unfolding BTreeMap.find_key contains
outside e = ground arith

outside_page : align_down 200000 4096 ≡ ok 196608
unfolding align_down
outside_page = refl

add_data_to_mapping-keeps_example :
    BTreeMap.get 65536 (add_data_to_mapping table captured 200000 4096).0 ≡ BTreeMap.get 65536 table
add_data_to_mapping-keeps_example =
    add_data_to_mapping-keeps table captured 200000 4096 196608 65536 outside_page (ground arith)
      outside

-- A DSO and its link map.
abbrev program_entry : LinkMapEntry
program_entry = record { addr = 65536; ld = 70000; name = b'a' ∷ [] }

abbrev library_entry : LinkMapEntry
library_entry = record { addr = 131072; ld = 140000; name = b'l' ∷ b'i' ∷ b'b' ∷ [] }

abbrev dynamic_entries : List DynEntry
dynamic_entries = (1, 7) ∷ (21, 0) ∷ (0, 0) ∷ (21, 5) ∷ []

abbrev debugged : DsoDebug
debugged = record {
  version = 1;
  brk = 66000;
  ldbase = 131072;
  dynamic = 70000;
  link_map = program_entry ∷ library_entry ∷ [];
  dynamic_data = captured;
}

abbrev overrides : BTreeMap (List ℕ)
overrides = (131072, b'x' ∷ b'y' ∷ []) ∷ []

debugged-BlobFits : BlobFits x86_64 debugged overrides
unfolding long_size is_64bit elf_class records_size record_size filename_padded_size name_for
    BTreeMap.get
debugged-BlobFits = record {
  version = omega arith;
  brk = omega arith;
  ldbase = omega arith;
  entries = ground arith;
  end = ground arith;
}

build_link_map_blob-IsChain_example :
    (blob : List ℕ) × (build_link_map_blob x86_64 debugged overrides ≡ ok blob)
    × (word_at (long_size x86_64) blob link_map_addr ≡ 1)
    × (word_at (long_size x86_64) blob (link_map_addr + 2 * long_size x86_64) ≡ 66000)
    × (word_at (long_size x86_64) blob (link_map_addr + 3 * long_size x86_64) ≡ 0)
    × (word_at (long_size x86_64) blob (link_map_addr + 4 * long_size x86_64) ≡ 131072)
    × IsChain
        (long_size x86_64)
        overrides
        blob
        0
        (word_at (long_size x86_64) blob (link_map_addr + long_size x86_64))
        (program_entry ∷ library_entry ∷ [])
build_link_map_blob-IsChain_example =
    build_link_map_blob-IsChain x86_64 debugged overrides debugged-BlobFits

patch_dt_debug-patched_example :
    patch_dt_debug x86 (dyn_bytes (long_size x86) dynamic_entries ++ captured) 4096
    ≡ ok (dyn_bytes (long_size x86) (patched 4096 dynamic_entries) ++ captured)
unfolding long_size
patch_dt_debug-patched_example =
    patch_dt_debug-patched x86 4096 dynamic_entries captured (omega arith) (ground arith)
      (ground arith)

abbrev crashed : Process
crashed = record {
  architecture = x86_64;
  mappings = table;
  threads = record { tid = 5; stack_address = 69700; stack = captured; context = none } ∷ [];
  auxv = [];
  process_info = record { filename = []; arguments = []; pid = 5 };
  crashing_tid = some 5;
  exception_context = none;
  fatal_signal = 11;
  dso_debug = debugged;
  signatures = overrides;
}

augment_process-WellFormed_example :
    WellFormed default_page_size ((augment_process crashed).0).mappings
augment_process-WellFormed_example = augment_process-WellFormed crashed table-WellFormed
