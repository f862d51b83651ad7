-- ===== src/CoreWriter/Readable.antt =====
-- `write_core` of src/core_writer.rs against a reader of core files: header, table, notes, memory.
use minidump2core.Prelude.{
  ℕ, ◌+◌, ◌*◌, ◌^◌, ◌<◌, ◌≡◌, refl, ap, sym, ◌∙◌, arith, List, [], ◌∷◌, ◌++◌, length, drop, All,
  ◌==◌, append_assoc, length-append, drop-append, replicate, length-replicate,
}
use minidump2core.Error.{ok}
use mathlib.Core.Path.{subst, ap₂}
use minidump2core.Bytes.{slice, slice-append}
use minidump2core.BTreeMap.{values}
use minidump2core.Writer.{vec_write}
use minidump2core.Elf.{ProgramHeader, header_size, phdr_size, pt_note}
use minidump2core.Elf.Read.{Fits, addr_size}
use minidump2core.Elf.Header.{header_bytes, length-header_bytes, Reads, read-header_bytes}
use minidump2core.NoteSegment.{Process, build_note_segment}
use minidump2core.CoreWriter.{note_phdr, note_pad, write_core}
use minidump2core.CoreWriter.Image.{
  load_phdrs, table_bytes, data_bytes, header_of, note_offset, note_end, data_offset, file_size,
  phdrs, core_image, write_core-vec,
}
use minidump2core.CoreWriter.Image.Loads.{
  IsRange, AllDescribe, length-data_bytes, load_phdrs-AllDescribe,
}
use minidump2core.CoreWriter.Image.Table.{
  read_table, read_table-bytes, length-table_bytes, length-load_phdrs, length-values,
}
use minidump2core.CoreWriter.Fits.{EndsBelow, load_phdrs-Fits, note_phdr-Fits, word_pos, machine-lt}

-- What a reader of core files finds in an image: the ELF header, the table of program headers right
-- behind it, the notes where the first of them says, and the memory of every mapping, in order,
-- where the others say.
pub record IsCoreFile (p : Process) (notes image : List ℕ) : Type 0 where
  pub header : Reads ((header_of p).class == 2) (header_of p) image
  pub note_header : ProgramHeader
  pub load_headers : List ProgramHeader
  pub table :
      read_table (header_of p) (1 + length p.mappings) (drop (header_size (header_of p)) image)
      ≡ note_header ∷ load_headers
  pub note_type : note_header.p_type ≡ pt_note
  pub note_contents : slice note_header.p_offset note_header.p_filesz image ≡ notes
  pub memory : AllDescribe image (values p.mappings) load_headers

module _ (p : Process) (notes : List ℕ) where
  abbrev pad : List ℕ
  pad = replicate (note_pad (note_end p notes)) 0

  abbrev table : List ℕ
  table = table_bytes (header_of p).class (phdrs p notes)

  -- The image in the groupings that the readers want.
  before_notes : List ℕ
  before_notes = header_bytes (header_of p) ++ table

  before_data : List ℕ
  unfolding before_notes
  before_data = before_notes ++ (notes ++ pad)

  image_notes :
      core_image p notes ≡ before_notes ++ (notes ++ (pad ++ data_bytes (values p.mappings)))
  unfolding core_image before_notes
  image_notes = sym (append_assoc (header_bytes (header_of p)) table _)

  image_data : core_image p notes ≡ before_data ++ data_bytes (values p.mappings)
  unfolding core_image before_data
  image_data = simp append_assoc

  count : length (phdrs p notes) ≡ 1 + length p.mappings
  count = omega (
    arith,
    length-load_phdrs (values p.mappings) (data_offset p notes) (file_size p notes),
    length-values p.mappings,
  )

  length-before_notes : length before_notes ≡ note_offset p
  unfolding before_notes
  length-before_notes =
      length-append (header_bytes (header_of p)) table
      ∙ omega (
        arith,
        length-header_bytes (header_of p),
        length-table_bytes (header_of p) (phdrs p notes),
        ap (λ n. phdr_size (header_of p) * n) count,
      )

  length-before_data : length before_data ≡ data_offset p notes
  unfolding before_data
  length-before_data =
      length-append before_notes (notes ++ pad)
      ∙ omega (
        arith,
        length-before_notes,
        length-append notes pad,
        length-replicate {A = ℕ} (note_pad (note_end p notes)) 0,
      )

  pub length-core_image : length (core_image p notes) ≡ file_size p notes
  length-core_image =
      ap length image_data
      ∙ length-append before_data (data_bytes (values p.mappings))
      ∙ omega (arith, length-before_data, length-data_bytes (values p.mappings))

  module _ (f : All (Fits (addr_size (header_of p).class)) (phdrs p notes)) where
    read_header :
        1 + length p.mappings < 2 ^ 16
        → Reads ((header_of p).class == 2) (header_of p) (core_image p notes)
    unfolding core_image
    read_header h = read-header_bytes (header_of p) _ (machine-lt p.architecture) h

    read_phdrs :
        read_table
          (header_of p)
          (1 + length p.mappings)
          (drop (header_size (header_of p)) (core_image p notes))
        ≡ phdrs p notes
    unfolding core_image
    read_phdrs =
        ap₂ (read_table (header_of p)) (sym count) (
          drop-append (header_size (header_of p)) (header_bytes (header_of p)) _
            (sym (length-header_bytes (header_of p))))
        ∙ read_table-bytes (header_of p) (phdrs p notes) _ f

    read_notes :
        slice
          (note_phdr (note_offset p) (length notes)).p_offset
          (note_phdr (note_offset p) (length notes)).p_filesz
          (core_image p notes)
        ≡ notes
    unfolding note_phdr
    read_notes =
        ap (slice (note_offset p) (length notes)) image_notes
        ∙ slice-append (note_offset p) (length notes) before_notes notes
            (pad ++ data_bytes (values p.mappings)) (sym length-before_notes) refl

    core_image-IsCoreFile :
        1 + length p.mappings < 2 ^ 16
        → All IsRange (values p.mappings)
        → IsCoreFile p notes (core_image p notes)
    unfolding note_phdr
    core_image-IsCoreFile h r =
        let loads = load_phdrs (values p.mappings) (data_offset p notes) (file_size p notes) in
        record {
          header = read_header h;
          note_header = note_phdr (note_offset p) (length notes);
          load_headers = loads;
          table = read_phdrs;
          note_type = refl;
          note_contents = read_notes;
          memory =
              subst (λ t. AllDescribe t (values p.mappings) loads) (sym image_data)
                (load_phdrs-AllDescribe before_data (values p.mappings) _ _ r
                  (sym length-before_data) (sym length-core_image ∙ ap length image_data));
        }

  phdrs-Fits :
      All IsRange (values p.mappings)
      → All (EndsBelow (256 ^ addr_size (header_of p).class)) (values p.mappings)
      → file_size p notes < 256 ^ addr_size (header_of p).class
      → All (Fits (addr_size (header_of p).class)) (phdrs p notes)
  phdrs-Fits r e z =
      let word = addr_size (header_of p).class in
      let wide = word_pos p.architecture in
      (
        note_phdr-Fits word (note_offset p) (length notes) (omega arith) (omega arith) wide,
        load_phdrs-Fits word (values p.mappings) (data_offset p notes) (file_size p notes) wide r e
            (omega arith) z,
      )

-- Where the notes can be built, the program headers can be counted in 16 bits, and the mappings and
-- the size of the file fit the target's addresses, `write_core` into an empty vector succeeds, and a
-- reader of core files finds in the result the ELF header, the notes and the memory of every mapping.
pub write_core-IsCoreFile :
    (p : Process) (notes : List ℕ)
    → build_note_segment p ≡ ok notes
    → 1 + length p.mappings < 2 ^ 16
    → All IsRange (values p.mappings)
    → All (EndsBelow (256 ^ addr_size (header_of p).class)) (values p.mappings)
    → file_size p notes < 256 ^ addr_size (header_of p).class
    → (image : List ℕ) × (write_core p [] ≡ ok image) × IsCoreFile p notes image
write_core-IsCoreFile p notes e h r b z =
    let f = phdrs-Fits p notes r b z in
    (core_image p notes, write_core-vec p notes [] e h f, core_image-IsCoreFile p notes f h r)
