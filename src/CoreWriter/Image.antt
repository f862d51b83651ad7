-- ===== src/CoreWriter/Image.antt =====
-- The bytes that `write_core` of src/core_writer.rs writes, part by part.
pub mod Loads
pub mod Table
use minidump2core.Prelude.{
  ℕ, zero, suc, ◌+◌, ◌-◌, ◌*◌, ◌%◌, ◌^◌, ◌<◌, ◌≡◌, refl, ap, sym, ◌∙◌, arith, List, [], ◌∷◌, ◌++◌,
  length, All, Bool, true, false, Bool-cases, inl, inr, replicate, ltb, ◌==◌, if◌then◌else◌,
  append-nil, append_assoc, length-append, lt→ltb, length-replicate,
}
use minidump2core.Error.{Result, ok}
use minidump2core.BTreeMap.{values}
use minidump2core.Writer.{vec_write, write_all, done, ◌>>◌, ◌>>=◌}
use minidump2core.Elf.{ElfHeader, ProgramHeader, header_size, phdr_size}
use minidump2core.Elf.Read.{
  Fits, addr_size, phdr_bytes, write_program_header-vec, length-phdr_bytes,
}
use minidump2core.Elf.Header.{header_bytes, write_elf_header-vec, length-header_bytes}
use minidump2core.Model.Mapping.{Mapping}
use minidump2core.NoteSegment.{Process, build_note_segment}
use minidump2core.CoreWriter.{
  load_phdr, next_offset, is_empty, note_phdr, note_pad, total_data, core_header, checked_phnum,
  write_load_phdrs, write_load_data, write_layout, write_core,
}

-- The headers that the loop over the mappings writes.
unfoldable pub load_phdrs : List Mapping → ℕ → ℕ → List ProgramHeader
load_phdrs [] load_offset empty_load_offset = []
load_phdrs (m ∷ ms) load_offset empty_load_offset =
    load_phdr m load_offset empty_load_offset
    ∷ load_phdrs ms (next_offset m load_offset) empty_load_offset

unfoldable pub table_bytes : ℕ → List ProgramHeader → List ℕ
table_bytes class [] = []
table_bytes class (ph ∷ phs) = phdr_bytes class ph ++ table_bytes class phs

unfoldable pub data_bytes : List Mapping → List ℕ
data_bytes [] = []
data_bytes (m ∷ ms) = m.bytes ++ data_bytes ms

-- The numbers that `write_core` computes from the process and the notes.
abbrev pub header_of : Process → ElfHeader
header_of p = core_header p.architecture (1 + length p.mappings)

abbrev pub note_offset : Process → ℕ
note_offset p = header_size (header_of p) + phdr_size (header_of p) * (1 + length p.mappings)

abbrev pub note_end : Process → List ℕ → ℕ
note_end p notes = note_offset p + length notes

abbrev pub data_offset : Process → List ℕ → ℕ
data_offset p notes = note_end p notes + note_pad (note_end p notes)

abbrev pub file_size : Process → List ℕ → ℕ
file_size p notes = data_offset p notes + total_data (values p.mappings)

abbrev pub phdrs : Process → List ℕ → List ProgramHeader
phdrs p notes =
    note_phdr (note_offset p) (length notes)
    ∷ load_phdrs (values p.mappings) (data_offset p notes) (file_size p notes)

-- The whole file.
unfoldable pub core_image : Process → List ℕ → List ℕ
core_image p notes =
    header_bytes (header_of p)
    ++ (table_bytes (header_of p).class (phdrs p notes)
        ++ (notes ++ (replicate (note_pad (note_end p notes)) 0 ++ data_bytes (values p.mappings))))

write_load_phdrs-vec :
    (ms : List Mapping) (load_offset empty_load_offset class : ℕ) (w : List ℕ)
    → All (Fits (addr_size class)) (load_phdrs ms load_offset empty_load_offset)
    → write_load_phdrs ms load_offset empty_load_offset class w
      ≡ ok (w ++ table_bytes class (load_phdrs ms load_offset empty_load_offset))
unfolding write_load_phdrs load_phdrs table_bytes
write_load_phdrs-vec [] o z c w h = ap ok (sym (append-nil w))
write_load_phdrs-vec (m ∷ ms) o z c w h =
    rw (write_program_header-vec (load_phdr m o z) c w h.0, ◌>>◌)
      (write_load_phdrs-vec ms (next_offset m o) z c (w ++ phdr_bytes c (load_phdr m o z)) h.1
        ∙ ap ok (append_assoc w _ _))

write_bytes-vec :
    (bytes w : List ℕ) → (if length bytes == 0 then done else write_all bytes) w ≡ ok (w ++ bytes)
write_bytes-vec [] w = ap ok (sym (append-nil w))
write_bytes-vec (b ∷ bytes) w = ground arith

write_load_data-vec :
    (ms : List Mapping) (w : List ℕ) → write_load_data ms w ≡ ok (w ++ data_bytes ms)
unfolding write_load_data data_bytes
write_load_data-vec [] w = ap ok (sym (append-nil w))
write_load_data-vec (m ∷ ms) w =
    rw (write_bytes-vec m.bytes w, ◌>>◌)
      (write_load_data-vec ms (w ++ m.bytes) ∙ ap ok (append_assoc w m.bytes (data_bytes ms)))

write_pad-vec :
    (n : ℕ) (w : List ℕ)
    → (if ltb 0 n then write_all (replicate n 0) else done) w ≡ ok (w ++ replicate n 0)
write_pad-vec zero w = ap ok (sym (append-nil w))
write_pad-vec (suc n) w = ground arith

-- With the notes built, and where the headers' fields fit and their number fits 16 bits,
-- `write_core` appends the image.
pub write_core-vec :
    (p : Process) (notes w : List ℕ)
    → build_note_segment p ≡ ok notes
    → 1 + length p.mappings < 2 ^ 16
    → All (Fits (addr_size (header_of p).class)) (phdrs p notes)
    → write_core p w ≡ ok (w ++ core_image p notes)
unfolding write_core write_layout core_image table_bytes
write_core-vec p notes w e h f =
    let h0 : List ℕ = header_bytes (header_of p) in
    let class = (header_of p).class in
    let w1 : List ℕ = w ++ h0 in
    let w2 : List ℕ = w1 ++ phdr_bytes class (note_phdr (note_offset p) (length notes)) in
    let loads = load_phdrs (values p.mappings) (data_offset p notes) (file_size p notes) in
    let w3 : List ℕ = w2 ++ table_bytes class loads in
    let w4 : List ℕ = w3 ++ notes in
    let pad = note_pad (note_end p notes) in
    rw (e, ◌>>=◌)
      (rw (lt→ltb _ _ h) (
        rw (write_elf_header-vec (header_of p) w, ◌>>◌)
          (rw
            (write_program_header-vec (note_phdr (note_offset p) (length notes)) class w1 f.0, ◌>>◌)
            (rw
              (
                write_load_phdrs-vec (values p.mappings) (data_offset p notes) (file_size p notes)
                    class w2 f.1,
                ◌>>◌,
              )
              (rw (write_pad-vec pad w4, ◌>>◌)
                (rw (write_load_data-vec (values p.mappings) (w4 ++ replicate pad 0), ◌>>◌)
                  (ap ok (simp append_assoc))))))))
