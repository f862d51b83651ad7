-- ===== src/Notes/Layout.antt =====
-- The bytes of the note that `Note::build` of src/notes.rs makes, field by field.
use minidump2core.Prelude.{
  ℕ, ◌+◌, ◌-◌, ◌%◌, ◌^◌, ◌<◌, ◌≡◌, refl, ap, ◌∙◌, List, ◌++◌, length, replicate, arith, ◌==◌,
  Bool-cases, inl, inr, append_assoc, append-nil, length-append, length-replicate, ==_iff, ==→ne,
  sym, lt→ltb,
}
use minidump2core.Error.{ok}
use minidump2core.Bytes.{le_bytes, resize_grow}
use minidump2core.Padding.{padding, padding_none, padding_some}
use minidump2core.Writer.{vec_write}
use minidump2core.Elf.{write_note_header}
use minidump2core.Notes.{pad_to, nul_terminated, build_note}

pub pad_to_lem :
    (out : List ℕ) (a : ℕ) → 0 < a → pad_to out a ≡ out ++ replicate (padding (length out) a) 0
unfolding pad_to
pad_to_lem out a h = elim (Bool-cases (length out % a == 0)) [
  | inl full ↦ rw (full, padding_none (length out) a ((==_iff _ 0).0 full)) (sym (append-nil out))
  | inr short ↦
      rw (short, padding_some (length out) a h (==→ne _ 0 short))
        (resize_grow out _ (omega arith) ∙ ap (λ k. out ++ replicate k 0) (omega arith))
]

-- Padding behind a front that is aligned already.
pad_to_behind :
    (front bs : List ℕ)
    → length front % 4 ≡ 0
    → pad_to (front ++ bs) 4 ≡ front ++ (bs ++ replicate (padding (length bs) 4) 0)
unfolding padding
pad_to_behind front bs h =
    pad_to_lem (front ++ bs) 4 (omega arith)
    ∙ ap (λ k. (front ++ bs) ++ replicate k 0) (omega (arith, h, length-append front bs))
    ∙ append_assoc front bs (replicate (padding (length bs) 4) 0)

-- `n` and the bytes up to the next multiple of 4.
abbrev pub round4 : ℕ → ℕ
round4 n = n + (4 - n % 4) % 4

-- The bytes of a note, field by field.
unfoldable pub note_bytes : List ℕ → ℕ → List ℕ → List ℕ
note_bytes name type desc =
    le_bytes 4 (length name)
    ++ (le_bytes 4 (length desc)
        ++ (le_bytes 4 type
            ++ (name
                ++ (replicate (padding (length name) 4) 0
                    ++ (desc ++ replicate (padding (length desc) 4) 0)))))

abbrev pub header : ℕ → ℕ → ℕ → List ℕ
header namesz descsz type = (le_bytes 4 namesz ++ le_bytes 4 descsz) ++ le_bytes 4 type

pub length-header : (n d t : ℕ) → length (header n d t) ≡ 12
unfolding le_bytes
length-header n d t = refl

pub length_filled :
    (bs : List ℕ) → length (bs ++ replicate (padding (length bs) 4) 0) ≡ round4 (length bs)
unfolding padding
length_filled bs =
    length-append bs (replicate (padding (length bs) 4) 0)
    ∙ ap (λ k. length bs + k) (length-replicate (padding (length bs) 4) 0)

named_aligned :
    (n d t : ℕ) (name : List ℕ)
    → n ≡ length name
    → length (header n d t ++ (name ++ replicate (padding (length name) 4) 0)) % 4 ≡ 0
named_aligned n d t name e = omega (
  arith,
  length-append (header n d t) (name ++ replicate (padding (length name) 4) 0),
  length-header n d t,
  length_filled name,
)

pad_note :
    (name : List ℕ) (type : ℕ) (desc : List ℕ)
    → pad_to (pad_to (header (length name) (length desc) type ++ name) 4 ++ desc) 4
      ≡ note_bytes name type desc
unfolding note_bytes
pad_note name type desc =
    let head = header (length name) (length desc) type in
    let zeros : List ℕ = replicate (padding (length name) 4) 0 in
    ap (λ t. pad_to (t ++ desc) 4)
      (pad_to_behind head name (omega (arith, length-header (length name) (length desc) type)))
    ∙ pad_to_behind (head ++ (name ++ zeros)) desc
        (named_aligned (length name) (length desc) type name refl)
    ∙ simp append_assoc

pub build_note_bytes :
    (name : List ℕ) (type : ℕ) (desc : List ℕ)
    → length (nul_terminated name) < 2 ^ 32
    → length desc < 2 ^ 32
    → build_note name type desc ≡ ok (record { bytes = note_bytes (nul_terminated name) type desc })
unfolding build_note write_note_header note_bytes
build_note_bytes name type desc hn hd =
    rw (lt→ltb _ _ hn, lt→ltb _ _ hd)
      (ap (λ bytes. ok (record { bytes = bytes })) (pad_note (nul_terminated name) type desc))
