-- ===== src/RustMinidump/LinkMaps/Strings.antt =====
-- `read_md_ascii_string` on a string of the minidump format.
use minidump2core.Prelude.{
  ℕ, ◌+◌, ◌*◌, ◌/◌, ◌%◌, ◌^◌, ◌<◌, ◌≡◌, refl, ap, sym, ◌∙◌, arith, true, false, some, List, [], ◌∷◌,
  ◌++◌, length, All, ltb, leb, if◌then◌else◌, >>?-some, append_assoc, length-append,
}
use minidump2core.Bytes.{
  le_bytes, from_le_bytes, from-le_bytes, length-le_bytes, slice, slice-append, get_slice,
}
use minidump2core.Model.Align.{checked_add}
use minidump2core.RustMinidump.Streams.{Formats, value}
use minidump2core.RustMinidump.LinkMaps.{pread_ok, ascii_units, read_md_ascii_string}

-- The documented behaviour of `pread_with::<u32>(off, LE)`: the four bytes at `off`, in range.
pub record ReadsU32 (formats : Formats) : Type 0 where
  pub reads :
      (bytes : List ℕ) (off : ℕ) (word : List ℕ)
      → get_slice off 4 bytes ≡ some word
      → formats.pread_u32 bytes off ≡ value (from_le_bytes word)

abbrev pub IsAscii : ℕ → Type 0
IsAscii c = (0 < c) × (c < 128)

-- A character of UTF-16, as two bytes.
unfoldable pub utf16_bytes : List ℕ → List ℕ
utf16_bytes [] = []
utf16_bytes (c ∷ cs) = c % 256 ∷ (c / 256 ∷ utf16_bytes cs)

-- `MDString`: the length in bytes, and the characters.
unfoldable pub md_string : List ℕ → List ℕ
unfolding utf16_bytes
md_string text = le_bytes 4 (length (utf16_bytes text)) ++ utf16_bytes text

-- What stands for a character: itself in ASCII, else `?`.
unfoldable pub shown : List ℕ → List ℕ
shown [] = []
shown (c ∷ cs) = (if ltb c 128 then c else b'?') ∷ shown cs

abbrev pub IsUnit : ℕ → Type 0
IsUnit c = (0 < c) × (c < 2 ^ 16)

ascii_units-utf16_bytes :
    (text : List ℕ) → All IsUnit text → ascii_units (utf16_bytes text) ≡ shown text
unfolding ascii_units utf16_bytes shown
ascii_units-utf16_bytes [] h = refl
ascii_units-utf16_bytes (c ∷ cs) h =
    let unit : c % 256 + 256 * (c / 256) ≡ c = omega arith in
    rw unit (ground (arith, h.0, ascii_units-utf16_bytes cs h.1))

get_slice-append :
    (front mid back : List ℕ)
    → get_slice (length front) (length mid) (front ++ (mid ++ back)) ≡ some mid
get_slice-append front mid back =
    let fits : leb (length front + length mid) (length (front ++ (mid ++ back))) ≡ true =
      ground (arith, length-append front (mid ++ back), length-append mid back) in
    rw fits (ap some (slice-append (length front) (length mid) front mid back refl refl))

-- A string of fewer than 2 ^ 32 bytes, each character one unit of UTF-16 other than NUL, that stands in
-- a file is read to the end, with `?` for each character that is not ASCII; `pread_with` reads the
-- `u32` at an offset, and the file is shorter than 2 ^ 64 bytes.
pub read_md_ascii_string-md_string :
    (formats : Formats) (front text back : List ℕ)
    → ReadsU32 formats
    → All IsUnit text
    → length (utf16_bytes text) < 2 ^ 32
    → length (front ++ (md_string text ++ back)) < 2 ^ 64
    → read_md_ascii_string formats (front ++ (md_string text ++ back)) (length front)
      ≡ some (shown text)
unfolding read_md_ascii_string md_string
read_md_ascii_string-md_string formats front text back law h size bound =
    >>?-some (pread_ok (formats.pread_u32 file (length front))) _ (ap pread_ok length_read) (
      >>?-some (checked_add (length front) 4) _ start (
        >>?-some (checked_add (length front + 4) (length units)) _ end_offset
          (rw inside (ap some (ap ascii_units units_read ∙ ascii_units-utf16_bytes text h)))))
  where
    units : List ℕ
    units = utf16_bytes text

    file : List ℕ
    file = front ++ ((le_bytes 4 (length units) ++ units) ++ back)

    split : file ≡ front ++ (le_bytes 4 (length units) ++ (units ++ back))
    split = ap (λ t. front ++ t) (append_assoc (le_bytes 4 (length units)) units back)

    length_file : length file ≡ length front + 4 + length units + length back
    length_file = omega (
      arith,
      ap length split,
      length-append front (le_bytes 4 (length units) ++ (units ++ back)),
      length-append (le_bytes 4 (length units)) (units ++ back),
      length-append units back,
      length-le_bytes 4 (length units),
    )

    word : get_slice (length front) 4 file ≡ some (le_bytes 4 (length units))
    word =
        ap (get_slice (length front) 4) split
        ∙ ap
            (λ n.
              get_slice (length front) n (front ++ (le_bytes 4 (length units) ++ (units ++ back))))
            (sym (length-le_bytes 4 (length units)))
        ∙ get_slice-append front (le_bytes 4 (length units)) (units ++ back)

    length_read : formats.pread_u32 file (length front) ≡ value (length units)
    length_read =
        law.reads file (length front) (le_bytes 4 (length units)) word
        ∙ ap value (from-le_bytes 4 (length units) size)

    start : checked_add (length front) 4 ≡ some (length front + 4)
    start = ground (arith, bound, length_file)

    end_offset :
        checked_add (length front + 4) (length units) ≡ some (length front + 4 + length units)
    end_offset = ground (arith, bound, length_file)

    inside : ltb (length file) (length front + 4 + length units) ≡ false
    inside = ground (arith, length_file)

    units_read : slice (length front + 4) (length units) file ≡ units
    units_read =
        ap (slice (length front + 4) (length units))
          (split ∙ sym (append_assoc front (le_bytes 4 (length units)) (units ++ back)))
        ∙ slice-append (length front + 4) (length units) (front ++ le_bytes 4 (length units)) units
            back
            (omega (
              arith,
              length-append front (le_bytes 4 (length units)),
              length-le_bytes 4 (length units),
            ))
            refl
