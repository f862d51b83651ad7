-- ===== src/RustMinidump/ElfFile.antt =====
-- What src/rust_minidump.rs reads from the ELF files of modules: `elf_dynamic_runtime_addr`,
-- `read_executable_dynamic` and `build_synthetic_auxv`.
pub mod Runtime
pub mod Headers
pub mod Relocated
pub mod Auxv
pub mod Agreement
use minidump2core.Prelude.{
  ℕ, zero, suc, ◌+◌, ◌-◌, ◌*◌, ◌^◌, Bool, true, false, not, ◌&&◌, Option, none, some, List, [], ◌∷◌,
  take, length, ltb, leb, ◌==◌, if◌then◌else◌, ◌>>?◌,
}
use mathlib.Core.Option
use minidump2core.Bytes.{from_le_bytes, get_slice, eq_bytes}
use minidump2core.Model.Align.{checked_add}
use minidump2core.Model.Architecture.{Architecture, is_64bit}

abbrev pub checked_sub : ℕ → ℕ → Option ℕ
checked_sub a b = if leb b a then some (a - b) else none

abbrev pub checked_mul : ℕ → ℕ → Option ℕ
checked_mul a b = if ltb (a * b) (2 ^ 64) then some (a * b) else none

unfoldable pub read_u16_le : List ℕ → ℕ → Option ℕ
read_u16_le bytes off = Option.map from_le_bytes (get_slice off 2 bytes)

unfoldable pub read_u32_le : List ℕ → ℕ → Option ℕ
read_u32_le bytes off = Option.map from_le_bytes (get_slice off 4 bytes)

unfoldable pub read_u64_le : List ℕ → ℕ → Option ℕ
read_u64_le bytes off = Option.map from_le_bytes (get_slice off 8 bytes)

abbrev pub ensure : Bool → Option (Unit {0})
ensure test = if test then some tt else none

-- `b"\x7fELF"`
abbrev pub elf_magic : List ℕ
elf_magic = 0x7f ∷ (b'E' ∷ (b'L' ∷ (b'F' ∷ [])))

abbrev pub same_bool : Bool → Bool → Bool
same_bool true b = b
same_bool false b = not b

-- `bytes.get(..4) != Some(b"\x7fELF")`
unfoldable pub is_elf : List ℕ → Bool
is_elf bytes = leb 4 (length bytes) && eq_bytes (take 4 bytes) elf_magic

-- `bytes.get(4).copied()? == 2`
unfoldable pub class_is_64 : List ℕ → Option Bool
class_is_64 bytes = Option.map (λ b. from_le_bytes b == 2) (get_slice 4 1 bytes)

pub record PhdrTable : Type 0 where
  pub e_phoff : ℕ
  pub e_phentsize : ℕ
  pub e_phnum : ℕ

abbrev pub table_at : Option ℕ → Option ℕ → Option ℕ → Option PhdrTable
table_at phoff phentsize phnum = phoff >>? λ e_phoff. phentsize >>? λ e_phentsize.
    phnum >>? λ e_phnum.
    some (record { e_phoff = e_phoff; e_phentsize = e_phentsize; e_phnum = e_phnum })

unfoldable pub phdr_table : Bool → List ℕ → Option PhdrTable
unfolding read_u16_le read_u32_le read_u64_le
phdr_table true bytes =
    table_at (read_u64_le bytes 32) (read_u16_le bytes 54) (read_u16_le bytes 56)
phdr_table false bytes =
    table_at (read_u32_le bytes 28) (read_u16_le bytes 42) (read_u16_le bytes 44)

-- The checks in front of the table: the magic number, and the class of the target.
unfoldable pub elf_class_of : Architecture → List ℕ → Option Bool
unfolding is_elf class_is_64
elf_class_of arch bytes = ensure (is_elf bytes) >>? λ magic.
    class_is_64 bytes >>? λ is_64. ensure (same_bool is_64 (is_64bit arch)) >>? λ class. some is_64

-- `for i in 0..e_phnum`, from `i`: `body` gets the offset of the entry.
unfoldable pub scan {ℓ} : {S : Type ℓ} → (ℕ → S → Option S) → PhdrTable → ℕ → ℕ → S → Option S
scan body table zero i s = some s
scan body table (suc n) i s = checked_mul i table.e_phentsize >>? λ distance.
    checked_add table.e_phoff distance >>? λ o.
    body o s >>? λ later. scan body table n (suc i) later

unfoldable pub read_word : Bool → List ℕ → ℕ → ℕ → Option ℕ
unfolding read_u32_le read_u64_le
read_word true bytes off_64 off_32 = read_u64_le bytes off_64
read_word false bytes off_64 off_32 = read_u32_le bytes off_32

-- `get_or_insert`
abbrev pub get_or_insert : Option ℕ → ℕ → Option ℕ
get_or_insert (some old) v = some old
get_or_insert none v = some v

abbrev pub load_segment : ℕ
load_segment = 1

abbrev pub dynamic_segment : ℕ
dynamic_segment = 2

abbrev pub phdr_segment : ℕ
phdr_segment = 6

-- The first load address, and the address of the last segment of type `kind`.
pub record Vaddrs : Type 0 where
  pub first_load : Option ℕ
  pub wanted : Option ℕ

abbrev pub note_vaddr : ℕ → ℕ → ℕ → Vaddrs → Vaddrs
note_vaddr kind p_type p_vaddr s =
    if p_type == load_segment
    then record s { first_load = get_or_insert s.first_load p_vaddr }
    else (if p_type == kind then record s { wanted = some p_vaddr } else s)

-- The body of the loops that look for one address.
unfoldable pub vaddr_body : ℕ → Bool → List ℕ → ℕ → Vaddrs → Option Vaddrs
unfolding read_u32_le read_word
vaddr_body kind is_64 bytes o s = read_u32_le bytes o >>? λ p_type.
    read_word is_64 bytes (o + 16) (o + 8) >>? λ p_vaddr. some (note_vaddr kind p_type p_vaddr s)

abbrev pub no_vaddrs : Vaddrs
no_vaddrs = record { first_load = none; wanted = none }

unfoldable pub scan_vaddrs : ℕ → Bool → List ℕ → PhdrTable → Option Vaddrs
unfolding scan vaddr_body
scan_vaddrs kind is_64 bytes table =
    scan (vaddr_body kind is_64 bytes) table table.e_phnum 0 no_vaddrs

-- What `elf_dynamic_runtime_addr` does with the bytes of the file.
unfoldable pub dynamic_addr_in : Architecture → List ℕ → ℕ → Option ℕ
unfolding elf_class_of phdr_table scan_vaddrs
dynamic_addr_in arch bytes load_base = elf_class_of arch bytes >>? λ is_64.
    phdr_table is_64 bytes >>? λ table. scan_vaddrs dynamic_segment is_64 bytes table >>? λ s.
    s.first_load >>? λ first_load_vaddr. checked_sub load_base first_load_vaddr >>? λ load_bias.
    s.wanted >>? λ dyn_vaddr. checked_add load_bias dyn_vaddr
