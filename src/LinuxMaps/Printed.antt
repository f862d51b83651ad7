-- ===== src/LinuxMaps/Printed.antt =====
-- The text of /proc/<pid>/maps as the kernel prints it (`show_map_vma`).
pub mod Words
pub mod RoundTrip
pub mod Detected
use minidump2core.Prelude.{
  ℕ, suc, ◌^◌, ◌<◌, ◌≢◌, Bool, some, List, [], ◌∷◌, ◌++◌, if◌then◌else◌, All, replicate,
}
use minidump2core.Text.Utf8.{encode}
use minidump2core.Text.Split.{newline}
use minidump2core.Text.Split.Laws.{InWord}
use minidump2core.Text.Hex.{lower_hex}
use minidump2core.Model.Mapping.{Mapping, permissions}
use minidump2core.LinuxMaps.{dash, slash}

abbrev pub space : ℕ
space = 0x20

-- What stands behind a line's numbers: nothing, a name such as `[heap]`, or a path from the root.
pub data Backing : Type 0 where
  anonymous : Backing
  special : ℕ → List ℕ → Backing
  file : List ℕ → Backing

-- A number is printed in `width + 1` digits.
pub record MapsEntry : Type 0 where
  pub start_width : ℕ
  pub start : ℕ
  pub end_width : ℕ
  pub end_address : ℕ
  pub readable : Bool
  pub writable : Bool
  pub executable : Bool
  pub shared : Bool
  pub offset_width : ℕ
  pub offset : ℕ
  pub device : List ℕ
  pub inode : List ℕ
  pub padding : ℕ
  pub backing : Backing

abbrev pub flag : Bool → ℕ → ℕ
flag test letter = if test then letter else dash

unfoldable pub print_range : MapsEntry → List ℕ
unfolding lower_hex
print_range e =
    lower_hex (suc e.start_width) e.start ++ (dash ∷ lower_hex (suc e.end_width) e.end_address)

unfoldable pub print_permissions : MapsEntry → List ℕ
print_permissions e =
    flag e.readable b'r'
    ∷ (flag e.writable b'w' ∷ (flag e.executable b'x' ∷ ((if e.shared then b's' else b'p') ∷ [])))

abbrev pub print_backing : Backing → List ℕ
print_backing anonymous = []
print_backing (special c name) = c ∷ name
print_backing (file name) = slash ∷ name

unfoldable pub print_entry : MapsEntry → List ℕ
unfolding print_range print_permissions lower_hex
print_entry e =
    print_range e
    ++ (space
        ∷ (print_permissions e
            ++ (space
                ∷ (lower_hex (suc e.offset_width) e.offset
                    ++ (space
                        ∷ (e.device
                            ++ (space
                                ∷ (e.inode
                                    ++ (space
                                        ∷ (replicate e.padding space
                                            ++ print_backing e.backing))))))))))

unfoldable pub print_maps : List MapsEntry → List ℕ
unfolding print_entry
print_maps [] = []
print_maps (e ∷ es) = print_entry e ++ (newline ∷ print_maps es)

abbrev pub IsWord : List ℕ → Type 0
IsWord [] = ⊥
IsWord (c ∷ cs) = InWord c × All InWord cs

abbrev pub IsBacking : Backing → Type 0
IsBacking anonymous = Unit
IsBacking (special c name) = (c ≢ slash) × IsWord (c ∷ name)
IsBacking (file name) = All InWord name

pub record IsEntry (e : MapsEntry) : Type 0 where
  pub start_digits : e.start < 16 ^ suc e.start_width
  pub end_digits : e.end_address < 16 ^ suc e.end_width
  pub offset_digits : e.offset < 16 ^ suc e.offset_width
  pub not_empty : e.start < e.end_address
  pub end_bound : e.end_address < 2 ^ 64
  pub offset_bound : e.offset < 2 ^ 64
  pub device_word : IsWord e.device
  pub inode_word : IsWord e.inode
  pub backing_word : IsBacking e.backing

-- The mappings of files, in the order of the lines.
abbrev pub file_of : MapsEntry → Backing → List Mapping → List Mapping
file_of e anonymous rest = rest
file_of e (special c name) rest = rest
file_of e (file name) rest =
    record {
      start_address = e.start;
      end_address = e.end_address;
      offset = e.offset;
      permissions = permissions e.readable e.writable e.executable;
      filename = some (encode (slash ∷ name));
      bytes = [];
    }
    ∷ rest

unfoldable pub file_mappings : List MapsEntry → List Mapping
unfolding permissions
file_mappings [] = []
file_mappings (e ∷ es) = file_of e e.backing (file_mappings es)
