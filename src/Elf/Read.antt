-- ===== src/Elf/Read.antt =====
-- A reader of ELF headers, written from the format's tables of offsets, against the writers of
-- src/elf.rs.
use minidump2core.Prelude.{
  ℕ, ◌^◌, ◌<◌, ◌≡◌, inl, inr, ap, List, ◌++◌, length, arith, ◌==◌, if◌then◌else◌, append_assoc, sym,
  ◌∙◌, Bool-cases, String,
}
use mathlib.Core.Path.{subst}
use minidump2core.Error.{ok}
use minidump2core.Bytes.{
  le_bytes, from_le_bytes, from-le_bytes, slice, slice-append, length-le_bytes, IsU32,
}
use minidump2core.Writer.{vec_write}
use minidump2core.Elf.{
  ElfHeader, ProgramHeader, write_program_header, write_phdr64, write_phdr32, phdr_size, elf32_word,
}

-- The number that `n` bytes at `off` encode.
unfoldable pub read_le : ℕ → ℕ → List ℕ → ℕ
read_le n off image = from_le_bytes (slice off n image)

pub read-le_append :
    (n off : ℕ) (front : List ℕ) (v : ℕ) (rest : List ℕ)
    → off ≡ length front
    → v < 256 ^ n
    → read_le n off (front ++ (le_bytes n v ++ rest)) ≡ v
unfolding read_le
read-le_append n off front v rest h fits =
    ap from_le_bytes (slice-append off n front (le_bytes n v) rest h (sym (length-le_bytes n v)))
    ∙ from-le_bytes n v fits

-- The fields of a program header of ELF64 and of ELF32, by their offsets.
unfoldable pub read_phdr64 : List ℕ → ProgramHeader
read_phdr64 image = record {
  p_type = read_le 4 0 image;
  p_flags = read_le 4 4 image;
  p_offset = read_le 8 8 image;
  p_vaddr = read_le 8 16 image;
  p_paddr = read_le 8 24 image;
  p_filesz = read_le 8 32 image;
  p_memsz = read_le 8 40 image;
  p_align = read_le 8 48 image;
}

unfoldable pub read_phdr32 : List ℕ → ProgramHeader
read_phdr32 image = record {
  p_type = read_le 4 0 image;
  p_offset = read_le 4 4 image;
  p_vaddr = read_le 4 8 image;
  p_paddr = read_le 4 12 image;
  p_filesz = read_le 4 16 image;
  p_memsz = read_le 4 20 image;
  p_flags = read_le 4 24 image;
  p_align = read_le 4 28 image;
}

unfoldable pub read_phdr : ℕ → List ℕ → ProgramHeader
read_phdr class image = if class == 2 then read_phdr64 image else read_phdr32 image

-- The bytes of a program header, and of the ELF header.
unfoldable pub phdr_bytes64 : ProgramHeader → List ℕ
phdr_bytes64 ph =
    le_bytes 4 ph.p_type
    ++ (le_bytes 4 ph.p_flags
        ++ (le_bytes 8 ph.p_offset
            ++ (le_bytes 8 ph.p_vaddr
                ++ (le_bytes 8 ph.p_paddr
                    ++ (le_bytes 8 ph.p_filesz
                        ++ (le_bytes 8 ph.p_memsz ++ le_bytes 8 ph.p_align))))))

unfoldable pub phdr_bytes32 : ProgramHeader → List ℕ
phdr_bytes32 ph =
    le_bytes 4 ph.p_type
    ++ (le_bytes 4 ph.p_offset
        ++ (le_bytes 4 ph.p_vaddr
            ++ (le_bytes 4 ph.p_paddr
                ++ (le_bytes 4 ph.p_filesz
                    ++ (le_bytes 4 ph.p_memsz
                        ++ (le_bytes 4 ph.p_flags ++ le_bytes 4 ph.p_align))))))

unfoldable pub phdr_bytes : ℕ → ProgramHeader → List ℕ
unfolding phdr_bytes64 phdr_bytes32
phdr_bytes class ph = if class == 2 then phdr_bytes64 ph else phdr_bytes32 ph

-- The fields fit a class whose addresses and offsets have `word` bytes.
pub record Fits (word : ℕ) (ph : ProgramHeader) : Type 0 where
  pub type_fits : IsU32 ph.p_type
  pub flags_fit : IsU32 ph.p_flags
  pub offset_fits : ph.p_offset < 256 ^ word
  pub vaddr_fits : ph.p_vaddr < 256 ^ word
  pub paddr_fits : ph.p_paddr < 256 ^ word
  pub filesz_fits : ph.p_filesz < 256 ^ word
  pub memsz_fits : ph.p_memsz < 256 ^ word
  pub align_fits : ph.p_align < 256 ^ word

-- The bytes of an address in a class.
abbrev pub addr_size : ℕ → ℕ
addr_size class = if class == 2 then 8 else 4

word_fits : (v : ℕ) (field : String) → v < 2 ^ 32 → elf32_word v field ≡ ok v
unfolding elf32_word
word_fits v field h = ground arith

write_phdr64-vec : (ph : ProgramHeader) (w : List ℕ) → write_phdr64 ph w ≡ ok (w ++ phdr_bytes64 ph)
unfolding write_phdr64 phdr_bytes64
write_phdr64-vec ph w = simp append_assoc

write_phdr32-vec :
    (ph : ProgramHeader) (w : List ℕ) → Fits 4 ph → write_phdr32 ph w ≡ ok (w ++ phdr_bytes32 ph)
unfolding write_phdr32 phdr_bytes32
write_phdr32-vec ph w f = simp (
  word_fits _ _ f.offset_fits,
  word_fits _ _ f.vaddr_fits,
  word_fits _ _ f.paddr_fits,
  word_fits _ _ f.filesz_fits,
  word_fits _ _ f.memsz_fits,
  word_fits _ _ f.align_fits,
  append_assoc,
)

read-phdr_bytes64 :
    (ph : ProgramHeader) (rest : List ℕ) → Fits 8 ph → read_phdr64 (phdr_bytes64 ph ++ rest) ≡ ph
unfolding read_phdr64 phdr_bytes64 read_le le_bytes from_le_bytes
read-phdr_bytes64 ph rest f = λ i. record {
  p_type = from-le_bytes 4 ph.p_type f.type_fits i;
  p_flags = from-le_bytes 4 ph.p_flags f.flags_fit i;
  p_offset = from-le_bytes 8 ph.p_offset f.offset_fits i;
  p_vaddr = from-le_bytes 8 ph.p_vaddr f.vaddr_fits i;
  p_paddr = from-le_bytes 8 ph.p_paddr f.paddr_fits i;
  p_filesz = from-le_bytes 8 ph.p_filesz f.filesz_fits i;
  p_memsz = from-le_bytes 8 ph.p_memsz f.memsz_fits i;
  p_align = from-le_bytes 8 ph.p_align f.align_fits i;
}

read-phdr_bytes32 :
    (ph : ProgramHeader) (rest : List ℕ) → Fits 4 ph → read_phdr32 (phdr_bytes32 ph ++ rest) ≡ ph
unfolding read_phdr32 phdr_bytes32 read_le le_bytes from_le_bytes
read-phdr_bytes32 ph rest f = λ i. record {
  p_type = from-le_bytes 4 ph.p_type f.type_fits i;
  p_flags = from-le_bytes 4 ph.p_flags f.flags_fit i;
  p_offset = from-le_bytes 4 ph.p_offset f.offset_fits i;
  p_vaddr = from-le_bytes 4 ph.p_vaddr f.vaddr_fits i;
  p_paddr = from-le_bytes 4 ph.p_paddr f.paddr_fits i;
  p_filesz = from-le_bytes 4 ph.p_filesz f.filesz_fits i;
  p_memsz = from-le_bytes 4 ph.p_memsz f.memsz_fits i;
  p_align = from-le_bytes 4 ph.p_align f.align_fits i;
}

pub write_program_header-vec :
    (ph : ProgramHeader) (class : ℕ) (w : List ℕ)
    → Fits (addr_size class) ph
    → write_program_header ph class w ≡ ok (w ++ phdr_bytes class ph)
unfolding write_program_header phdr_bytes
write_program_header-vec ph class w f = elim (Bool-cases (class == 2)) [
  | inl wide ↦ rw wide (write_phdr64-vec ph w)
  | inr narrow ↦
      rw narrow (write_phdr32-vec ph w (subst (λ c. Fits (if c then 8 else 4) ph) narrow f))
]

pub read-phdr_bytes :
    (ph : ProgramHeader) (class : ℕ) (rest : List ℕ)
    → Fits (addr_size class) ph
    → read_phdr class (phdr_bytes class ph ++ rest) ≡ ph
unfolding read_phdr phdr_bytes
read-phdr_bytes ph class rest f = elim (Bool-cases (class == 2)) [
  | inl wide ↦
      rw wide (read-phdr_bytes64 ph rest (subst (λ c. Fits (if c then 8 else 4) ph) wide f))
  | inr narrow ↦
      rw narrow (read-phdr_bytes32 ph rest (subst (λ c. Fits (if c then 8 else 4) ph) narrow f))
]

pub length-phdr_bytes :
    (ph : ProgramHeader) (h : ElfHeader) → length (phdr_bytes h.class ph) ≡ phdr_size h
unfolding phdr_bytes phdr_size le_bytes
length-phdr_bytes ph h = ground arith

-- The fields that `write` checks in ELF32.
abbrev pub WordsFit : ProgramHeader → Type 0
WordsFit ph =
    IsU32 ph.p_offset
    × IsU32 ph.p_vaddr
    × IsU32 ph.p_paddr
    × IsU32 ph.p_filesz
    × IsU32 ph.p_memsz
    × IsU32 ph.p_align

-- In ELF32 a header is written only where the six checked fields fit 32 bits.
pub write_program_header_fits :
    (ph : ProgramHeader) (w : List ℕ) {w' : List ℕ}
    → write_program_header ph 1 w ≡ ok w'
    → WordsFit ph
unfolding write_program_header write_phdr32 elf32_word
write_program_header_fits ph w e = ground arith

-- A program header whose fields fit the widths of its class is written, with the size that
-- `ElfHeader::phdr_size` says for the class, and a reader of the format finds the same fields.
pub write_program_header-read :
    (ph : ProgramHeader) (h : ElfHeader) (w rest : List ℕ)
    → Fits (addr_size h.class) ph
    → (image : List ℕ) × (write_program_header ph h.class w ≡ ok (w ++ image))
      × (length image ≡ phdr_size h)
      × (read_phdr h.class (image ++ rest) ≡ ph)
write_program_header-read ph h w rest f = (
  phdr_bytes h.class ph,
  write_program_header-vec ph h.class w f,
  length-phdr_bytes ph h,
  read-phdr_bytes ph h.class rest f,
)
