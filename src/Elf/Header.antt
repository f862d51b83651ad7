-- ===== src/Elf/Header.antt =====
-- The ELF header that src/elf.rs writes, read back by the format's table of offsets.
use minidump2core.Prelude.{
  ℕ, ◌≡◌, inl, inr, refl, List, ◌++◌, length, arith, ◌==◌, if◌then◌else◌, append_assoc, take, Bool,
  true, false, Bool-cases, ==_iff,
}
use minidump2core.Error.{ok}
use minidump2core.Bytes.{le_bytes, from_le_bytes, from-le_bytes, IsU16}
use minidump2core.Writer.{vec_write}
use minidump2core.Elf.{
  ElfHeader, write_elf_header, header_size, phdr_size, e_ident, et_core, ev_current, elfmag,
}
use minidump2core.Elf.Read.{read_le}

-- The bytes of the ELF header of each class.
abbrev bytes64 : ElfHeader → List ℕ
bytes64 h =
    e_ident h
    ++ (le_bytes 2 et_core
        ++ (le_bytes 2 h.machine
            ++ (le_bytes 4 ev_current
                ++ (le_bytes 8 0
                    ++ (le_bytes 8 64
                        ++ (le_bytes 8 0
                            ++ (le_bytes 4 0
                                ++ (le_bytes 2 64
                                    ++ (le_bytes 2 56
                                        ++ (le_bytes 2 h.phnum
                                            ++ (le_bytes 2 64
                                                ++ (le_bytes 2 0 ++ le_bytes 2 0))))))))))))

abbrev bytes32 : ElfHeader → List ℕ
bytes32 h =
    e_ident h
    ++ (le_bytes 2 et_core
        ++ (le_bytes 2 h.machine
            ++ (le_bytes 4 ev_current
                ++ (le_bytes 4 0
                    ++ (le_bytes 4 52
                        ++ (le_bytes 4 0
                            ++ (le_bytes 4 0
                                ++ (le_bytes 2 52
                                    ++ (le_bytes 2 32
                                        ++ (le_bytes 2 h.phnum
                                            ++ (le_bytes 2 40
                                                ++ (le_bytes 2 0 ++ le_bytes 2 0))))))))))))

unfoldable pub header_bytes : ElfHeader → List ℕ
header_bytes h = if h.class == 2 then bytes64 h else bytes32 h

pub write_elf_header-vec :
    (h : ElfHeader) (w : List ℕ) → write_elf_header h w ≡ ok (w ++ header_bytes h)
unfolding write_elf_header header_bytes header_size phdr_size
write_elf_header-vec h w = elim (Bool-cases (h.class == 2)) [
  | inl wide ↦ rw wide (simp append_assoc)
  | inr narrow ↦ rw narrow (simp append_assoc)
]

pub length-header_bytes : (h : ElfHeader) → length (header_bytes h) ≡ header_size h
unfolding header_bytes header_size le_bytes e_ident
length-header_bytes h = ground arith

-- What a reader of the format finds in an image, with `wide` for ELF64.
pub record Reads (wide : Bool) (h : ElfHeader) (image : List ℕ) : Type 0 where
  pub magic : take 4 image ≡ elfmag
  pub class : read_le 1 4 image ≡ h.class
  pub type : read_le 2 16 image ≡ et_core
  pub machine : read_le 2 18 image ≡ h.machine
  pub phoff : (if wide then read_le 8 32 image else read_le 4 28 image) ≡ header_size h
  pub ehsize : (if wide then read_le 2 52 image else read_le 2 40 image) ≡ header_size h
  pub phentsize : (if wide then read_le 2 54 image else read_le 2 42 image) ≡ phdr_size h
  pub phnum : (if wide then read_le 2 56 image else read_le 2 44 image) ≡ h.phnum

reads64 :
    (h : ElfHeader) (rest : List ℕ)
    → h.class ≡ 2
    → IsU16 h.machine
    → IsU16 h.phnum
    → Reads true h (bytes64 h ++ rest)
unfolding read_le le_bytes from_le_bytes header_size phdr_size e_ident
reads64 h rest c m p = record {
  magic = refl;
  class = ground arith;
  type = refl;
  machine = from-le_bytes 2 h.machine m;
  phoff = ground arith;
  ehsize = ground arith;
  phentsize = ground arith;
  phnum = from-le_bytes 2 h.phnum p;
}

reads32 :
    (h : ElfHeader) (rest : List ℕ)
    → (h.class == 2) ≡ false
    → IsU16 h.machine
    → IsU16 h.phnum
    → Reads false h (bytes32 h ++ rest)
unfolding read_le le_bytes from_le_bytes header_size phdr_size e_ident
reads32 h rest c m p = record {
  magic = refl;
  class = ground arith;
  type = refl;
  machine = from-le_bytes 2 h.machine m;
  phoff = ground arith;
  ehsize = ground arith;
  phentsize = ground arith;
  phnum = from-le_bytes 2 h.phnum p;
}

pub read-header_bytes :
    (h : ElfHeader) (rest : List ℕ)
    → IsU16 h.machine
    → IsU16 h.phnum
    → Reads (h.class == 2) h (header_bytes h ++ rest)
unfolding header_bytes
read-header_bytes h rest m p = elim (Bool-cases (h.class == 2)) [
  | inl wide ↦ rw wide (reads64 h rest ((==_iff h.class 2).0 wide) m p)
  | inr narrow ↦ rw narrow (reads32 h rest narrow m p)
]

-- The header that `ElfHeader::write` appends has the size that `ElfHeader::size` says, and a reader
-- of the format finds in it the magic number, the class, the type of a core file, the machine, the
-- offset of the program headers right behind it, their size and their number.
pub write_elf_header-Reads :
    (h : ElfHeader) (w rest : List ℕ)
    → IsU16 h.machine
    → IsU16 h.phnum
    → (image : List ℕ) × (write_elf_header h w ≡ ok (w ++ image))
      × (length image ≡ header_size h)
      × Reads (h.class == 2) h (image ++ rest)
write_elf_header-Reads h w rest m p =
    (header_bytes h, write_elf_header-vec h w, length-header_bytes h, read-header_bytes h rest m p)
