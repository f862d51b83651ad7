-- ===== src/Notes/Parse.antt =====
-- A reader of ELF notes, written from the format, against `Note::build` of src/notes.rs.
use minidump2core.Prelude.{
  ℕ, ◌+◌, ◌%◌, ◌≡◌, refl, ap, ◌∙◌, List, ◌++◌, length, drop, replicate, arith, append_assoc,
  drop-append, length-append, sym,
}
use minidump2core.Bytes.{le_bytes, from_le_bytes, from-le_bytes, slice, slice-append, IsU32}
use minidump2core.Padding.{padding}
use minidump2core.Writer.{vec_write}
use minidump2core.Elf.Read.{read_le}
use minidump2core.Notes.Layout.{note_bytes, header, length-header, length_filled, round4}

-- The reader: name, type, descriptor and what follows the note.
pub record Parsed : Type 0 where
  pub name : List ℕ
  pub type : ℕ
  pub desc : List ℕ
  pub rest : List ℕ

unfoldable pub parse_note : List ℕ → Parsed
parse_note image =
    let namesz = read_le 4 0 image in
    let descsz = read_le 4 4 image in
    record {
      name = slice 12 namesz image;
      type = read_le 4 8 image;
      desc = slice (12 + round4 namesz) descsz image;
      rest = drop (12 + round4 namesz + round4 descsz) image;
    }

module _ (n d t : ℕ) (tail : List ℕ) (hn : IsU32 n) (hd : IsU32 d) (ht : IsU32 t) where
  read_namesz : read_le 4 0 (header n d t ++ tail) ≡ n
  unfolding read_le le_bytes from_le_bytes
  read_namesz = from-le_bytes 4 n hn

  read_descsz : read_le 4 4 (header n d t ++ tail) ≡ d
  unfolding read_le le_bytes from_le_bytes
  read_descsz = from-le_bytes 4 d hd

  read_type : read_le 4 8 (header n d t ++ tail) ≡ t
  unfolding read_le le_bytes from_le_bytes
  read_type = from-le_bytes 4 t ht

filled : List ℕ → List ℕ
filled bs = bs ++ replicate (padding (length bs) 4) 0

length-filled : (bs : List ℕ) → length (filled bs) ≡ round4 (length bs)
unfolding filled
length-filled bs = length_filled bs

slice-filled :
    (off : ℕ) (front bs rest : List ℕ)
    → off ≡ length front
    → slice off (length bs) (front ++ (filled bs ++ rest)) ≡ bs
unfolding filled
slice-filled off front bs rest h =
    ap (λ t. slice off (length bs) (front ++ t))
      (append_assoc bs (replicate (padding (length bs) 4) 0) rest)
    ∙ slice-append off (length bs) front bs (replicate (padding (length bs) 4) 0 ++ rest) h refl

-- An image that begins with a note, in two groupings: the name behind the header, and the
-- descriptor behind both.
note_image :
    (name : List ℕ) (type : ℕ) (desc rest : List ℕ)
    → note_bytes name type desc ++ rest
      ≡ header (length name) (length desc) type ++ (filled name ++ (filled desc ++ rest))
unfolding note_bytes filled
note_image name type desc rest = simp append_assoc

parse_fields :
    (name : List ℕ) (type : ℕ) (desc rest : List ℕ)
    → IsU32 (length name)
    → IsU32 type
    → IsU32 (length desc)
    → parse_note (header (length name) (length desc) type ++ (filled name ++ (filled desc ++ rest)))
      ≡ record { name = name; type = type; desc = desc; rest = rest }
unfolding parse_note
parse_fields name type desc rest hn ht hd =
    let head : List ℕ = header (length name) (length desc) type in
    let tail : List ℕ = filled name ++ (filled desc ++ rest) in
    let front : List ℕ = head ++ filled name in
    let head_size : length head ≡ 12 = length-header (length name) (length desc) type in
    let front_size : length front ≡ 12 + round4 (length name) =
      length-append head (filled name) ∙ omega (arith, head_size, length-filled name) in
    let regroup : head ++ tail ≡ front ++ (filled desc ++ rest) =
      sym (append_assoc head (filled name) (filled desc ++ rest)) in
    let desc_read =
      ap (slice (12 + round4 (length name)) (length desc)) regroup
      ∙ slice-filled (12 + round4 (length name)) front desc rest (sym front_size) in
    let rest_read =
      ap (drop (12 + round4 (length name) + round4 (length desc)))
        (regroup ∙ sym (append_assoc front (filled desc) rest))
      ∙ drop-append (12 + round4 (length name) + round4 (length desc)) (front ++ filled desc) rest
          (omega (arith, length-append front (filled desc), front_size, length-filled desc)) in
    rw
      (
        read_namesz (length name) (length desc) type tail hn hd ht,
        read_descsz (length name) (length desc) type tail hn hd ht,
        read_type (length name) (length desc) type tail hn hd ht,
      )
      (λ i. record {
        name = slice-filled 12 head name (filled desc ++ rest) (sym head_size) i;
        type = type;
        desc = desc_read i;
        rest = rest_read i;
      })

-- A note at the front of an image is read back, and the rest of the image is left.
pub parse-note_bytes :
    (name : List ℕ) (type : ℕ) (desc rest : List ℕ)
    → IsU32 (length name)
    → IsU32 type
    → IsU32 (length desc)
    → parse_note (note_bytes name type desc ++ rest)
      ≡ record { name = name; type = type; desc = desc; rest = rest }
parse-note_bytes name type desc rest hn ht hd =
    rw note_image (parse_fields name type desc rest hn ht hd)

note_parts :
    (name : List ℕ) (type : ℕ) (desc : List ℕ)
    → note_bytes name type desc
      ≡ header (length name) (length desc) type ++ (filled name ++ filled desc)
unfolding note_bytes filled
note_parts name type desc = simp append_assoc

pub length-note_bytes :
    (name : List ℕ) (type : ℕ) (desc : List ℕ) → length (note_bytes name type desc) % 4 ≡ 0
length-note_bytes name type desc =
    let head : List ℕ = header (length name) (length desc) type in
    ap (λ t. length t % 4) (note_parts name type desc)
    ∙ omega (
      arith,
      length-append head (filled name ++ filled desc),
      length-append (filled name) (filled desc),
      length-header (length name) (length desc) type,
      length-filled name,
      length-filled desc,
    )
