-- ===== src/CoreWriter/Augmented.antt =====
-- `write_core` of src/core_writer.rs on a process that `augment_process` of src/augment.rs has gone
-- through, as src/main.rs calls them.
use minidump2core.Prelude.{ℕ, ◌+◌, ◌^◌, ◌<◌, ◌≡◌, ap, List, [], ◌∷◌, length, All}
use mathlib.Core.Path.{subst}
use minidump2core.Error.{Result, ok}
use minidump2core.BTreeMap.{values}
use minidump2core.BTreeMap.Laws.{Entries}
use minidump2core.Writer.{vec_write}
use minidump2core.Elf.Read.{addr_size}
use minidump2core.Model.Mapping.{default_page_size}
use minidump2core.NoteSegment.{Process, build_note_segment}
use minidump2core.Augment.{Mappings, augment_process}
use minidump2core.Augment.WellFormed.{WellFormed, IsMapped}
use minidump2core.Augment.WholePass.{augment_process-WellFormed}
use minidump2core.CoreWriter.{write_core}
use minidump2core.CoreWriter.Image.{header_of, file_size}
use minidump2core.CoreWriter.Image.Loads.{IsRange}
use minidump2core.CoreWriter.Fits.{EndsBelow}
use minidump2core.CoreWriter.Readable.{IsCoreFile, write_core-IsCoreFile}

mapped-IsRange :
    (page_size : ℕ) (ms : Mappings) → Entries (IsMapped page_size) ms → All IsRange (values ms)
unfolding values
mapped-IsRange page_size [] h = tt
mapped-IsRange page_size ((k, m) ∷ ms) h =
    ((h.0.ranged, h.0.bounded), mapped-IsRange page_size ms h.1)

-- Where a process with a well-formed mapping table is augmented without an error, and the augmented
-- process has notes, mappings that can be counted in 16 bits and a file that fits the target's
-- addresses, `write_core` succeeds on it, and a reader of core files finds the notes and every
-- mapping of the augmented process.
pub augmented-IsCoreFile :
    (p augmented : Process) (notes : List ℕ)
    → WellFormed default_page_size p.mappings
    → augment_process p ≡ (augmented, ok tt)
    → build_note_segment augmented ≡ ok notes
    → 1 + length augmented.mappings < 2 ^ 16
    → All (EndsBelow (256 ^ addr_size (header_of augmented).class)) (values augmented.mappings)
    → file_size augmented notes < 256 ^ addr_size (header_of augmented).class
    → (image : List ℕ) × (write_core augmented [] ≡ ok image) × IsCoreFile augmented notes image
augmented-IsCoreFile p augmented notes w done built counted ends size =
    let still : WellFormed default_page_size augmented.mappings =
      subst (WellFormed default_page_size)
        (ap (λ (o : Process × Result (Unit {0})). (o.0).mappings) done)
        (augment_process-WellFormed p w) in
    write_core-IsCoreFile augmented notes built counted
      (mapped-IsRange default_page_size augmented.mappings still.mapped) ends size
