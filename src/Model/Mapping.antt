-- ===== src/Model/Mapping.antt =====
-- `MappingPermissions` and `Mapping` of src/model.rs. A file name is the bytes of a Rust string.
use minidump2core.Prelude.{
  ℕ, Bool, true, false, not, ◌&&◌, Option, none, some, List, [], leb, ltb, if◌then◌else◌,
}
use minidump2core.Error.{Result, ok, err, invalid_address_range}
use Prim.Native.Nat.{bit_or}

abbrev pub default_page_size : ℕ
default_page_size = 4096

pub record MappingPermissions : Type 0 where
  pub read : Bool
  pub write : Bool
  pub execute : Bool

unfoldable pub permissions : Bool → Bool → Bool → MappingPermissions
permissions r w x = record { read = r; write = w; execute = x }

unfoldable pub read_write : MappingPermissions
unfolding permissions
read_write = permissions true true false

unfoldable pub read_only : MappingPermissions
unfolding permissions
read_only = permissions true false false

-- `MappingPermissions::default()`
unfoldable pub no_permissions : MappingPermissions
unfolding permissions
no_permissions = permissions false false false

-- The derived `==` against the default.
unfoldable pub is_default : MappingPermissions → Bool
is_default p = not p.read && (not p.write && not p.execute)

unfoldable pub to_elf_flags : MappingPermissions → ℕ
to_elf_flags p =
    let executed : ℕ = if p.execute then bit_or 0 1 else 0 in
    let written : ℕ = if p.write then bit_or executed 2 else executed in
    if p.read then bit_or written 4 else written

pub record Mapping : Type 0 where
  pub start_address : ℕ
  pub end_address : ℕ
  pub offset : ℕ
  pub permissions : MappingPermissions
  pub filename : Option (List ℕ)
  pub bytes : List ℕ

-- `Mapping::new`
unfoldable pub new_mapping : ℕ → ℕ → MappingPermissions → Result Mapping
new_mapping start_address end_address p =
    if leb end_address start_address
    then err (invalid_address_range start_address end_address)
    else ok (record {
      start_address = start_address;
      end_address = end_address;
      offset = 0;
      permissions = p;
      filename = none;
      bytes = [];
    })

unfoldable pub contains : Mapping → ℕ → Bool
contains m addr = leb m.start_address addr && ltb addr m.end_address

unfoldable pub with_file : Mapping → List ℕ → ℕ → Mapping
with_file m name offset = record m { filename = some name; offset = offset }
