-- ===== src/Examples/Ingest/Merge.antt =====
-- `ingest_modules` of src/rust_minidump.rs on two modules.
use minidump2core.Prelude.{◌≡◌, refl, arith, true, false, none, some, [], ◌∷◌, ◌++◌, replicate}
use minidump2core.BTreeMap.{values}
use minidump2core.BTreeMap
use minidump2core.Writer.{vec_write}
use minidump2core.Model.Architecture.{arm}
use minidump2core.Model.Mapping.{Mapping}
use minidump2core.NoteSegment.{Process}
use minidump2core.RustMinidump.Streams.{MinidumpModule}
use minidump2core.RustMinidump.Modules.{ConvertOptions, signature_for, ingest_modules}
use minidump2core.RustMinidump.Modules.Kept.{ingest_modules-keeps}
use minidump2core.RustMinidump.Modules.Added.{module_mapping, ingest_modules-adds}
use minidump2core.Examples.Ingest.{app}

abbrev options : ConvertOptions
options = record { mangle_sonames = false; so_base_dir = none }

abbrev library : MinidumpModule
library = record app { base_of_image = 0x40000; name = b'l' ∷ b'.' ∷ b's' ∷ b'o' ∷ [] }

abbrev mapped_app : Mapping
mapped_app = record {
  start_address = 0x30000;
  end_address = 0x38000;
  offset = 0;
  permissions = record { read = true; write = true; execute = false };
  filename = none;
  bytes = [];
}

abbrev partly_mapped : Process
partly_mapped = record {
  architecture = arm;
  mappings = (0x30000, mapped_app) ∷ [];
  threads = [];
  auxv = [];
  process_info = record { filename = replicate 16 0; arguments = replicate 80 0; pid = 5 };
  crashing_tid = none;
  exception_context = none;
  fatal_signal = 0;
  dso_debug = record {
    version = 0;
    brk = 0;
    ldbase = 0;
    dynamic = 0;
    link_map = [];
    dynamic_data = [];
  };
  signatures = [];
}

app_mapped : BTreeMap.get 0x30000 partly_mapped.mappings ≡ some mapped_app
unfolding BTreeMap.get
app_mapped = refl

ingest_modules-keeps_example :
    BTreeMap.get 0x30000 (ingest_modules partly_mapped (app ∷ library ∷ []) options).mappings
    ≡ some mapped_app
ingest_modules-keeps_example =
    ingest_modules-keeps 0x30000 mapped_app options (app ∷ library ∷ []) partly_mapped app_mapped

library_absent : BTreeMap.get 0x40000 partly_mapped.mappings ≡ none
unfolding BTreeMap.get
library_absent = refl

ingest_modules-adds_example :
    (BTreeMap.get 0x40000
        (ingest_modules partly_mapped ((app ∷ []) ++ (library ∷ [])) options).mappings
      ≡ some (module_mapping library options))
    × (BTreeMap.get 0x40000
          (ingest_modules partly_mapped ((app ∷ []) ++ (library ∷ [])) options).signatures
        ≡ some (signature_for library options))
ingest_modules-adds_example =
    ingest_modules-adds options (app ∷ []) library [] partly_mapped (omega arith, tt) tt
      library_absent (omega arith) (omega arith)
