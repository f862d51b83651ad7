-- ===== src/Examples/Maps.antt =====
-- src/linux_maps.rs, and the names of src/rust_minidump.rs, at small inputs.
use minidump2core.Prelude.{
  ℕ, suc, ◌≡◌, ◌↔◌, refl, arith, Bool, true, false, none, some, List, [], ◌∷◌, ◌++◌, All, length,
  replicate,
}
use minidump2core.Error.{ok}
use minidump2core.Bytes.{le_bytes}
use minidump2core.Text.Utf8.{from_utf8, utf8_from, utf8_step, first_byte, next_byte}
use minidump2core.Text.Split.{is_whitespace}
use minidump2core.Text.Hex.{lower_hex, lower_digit}
use minidump2core.Model.ProcessInfo.{basename, slash}
use minidump2core.LinuxMaps.{dash, looks_like_linux_maps, parse_linux_maps}
use minidump2core.LinuxMaps.Sound.{IsFileMapping, parse_linux_maps-IsFileMapping}
use minidump2core.LinuxMaps.Printed.{
  MapsEntry, IsEntry, special, file, print_maps, print_entry, print_range, print_permissions,
  file_mappings,
}
use minidump2core.LinuxMaps.Printed.RoundTrip.{parse_linux_maps-print_maps}
use minidump2core.LinuxMaps.Printed.Detected.{looks_like_linux_maps_lem}
use minidump2core.RustMinidump.SharedLib.{shared_lib_loop, looks_like_shared_lib}
use minidump2core.RustMinidump.SharedLib.Accepts.{IsSharedLibName, looks_like_shared_lib_lem}
use minidump2core.RustMinidump.Streams.{MinidumpModule}
use minidump2core.RustMinidump.Modules.{ConvertOptions, signature_for}
use minidump2core.RustMinidump.Modules.Names.{EndsInSlash, signature_for_lem}

abbrev device : List ℕ
device = b'0' ∷ b'8' ∷ b':' ∷ b'0' ∷ b'1' ∷ []

-- The code of `/a`, and a heap.
abbrev code : MapsEntry
code = record {
  start_width = 7;
  start = 0x10000;
  end_width = 7;
  end_address = 0x12000;
  readable = true;
  writable = false;
  executable = true;
  shared = false;
  offset_width = 7;
  offset = 0x1000;
  device = device;
  inode = b'5' ∷ [];
  padding = 3;
  backing = file (b'a' ∷ []);
}

abbrev heap : MapsEntry
heap = record code {
  start = 0x20000;
  end_address = 0x21000;
  writable = true;
  executable = false;
  offset = 0;
  backing = special b'[' (b'h' ∷ b']' ∷ []);
}

abbrev entries : List MapsEntry
entries = code ∷ heap ∷ []

entries-IsEntry : All IsEntry entries
unfolding is_whitespace
entries-IsEntry = (
  record {
    start_digits = omega arith;
    end_digits = omega arith;
    offset_digits = omega arith;
    not_empty = omega arith;
    end_bound = omega arith;
    offset_bound = omega arith;
    device_word = (refl, (refl, (refl, (refl, (refl, tt)))));
    inode_word = (refl, tt);
    backing_word = (refl, tt);
  },
  (
    record {
      start_digits = omega arith;
      end_digits = omega arith;
      offset_digits = omega arith;
      not_empty = omega arith;
      end_bound = omega arith;
      offset_bound = omega arith;
      device_word = (refl, (refl, (refl, (refl, (refl, tt)))));
      inode_word = (refl, tt);
      backing_word = (omega arith, (refl, (refl, (refl, tt))));
    },
    tt,
  ),
)

maps_text : from_utf8 (print_maps entries) ≡ some (print_maps entries)
unfolding from_utf8 utf8_from utf8_step first_byte next_byte print_maps print_entry print_range
    print_permissions lower_hex lower_digit
maps_text = refl

parse_linux_maps-print_maps_example :
    parse_linux_maps (print_maps entries) ≡ ok (file_mappings entries)
parse_linux_maps-print_maps_example =
    parse_linux_maps-print_maps (print_maps entries) entries entries-IsEntry maps_text

parsed : parse_linux_maps (print_maps entries) ≡ ok (file_mappings entries)
parsed = parse_linux_maps-print_maps (print_maps entries) entries entries-IsEntry maps_text

parse_linux_maps-IsFileMapping_example : All IsFileMapping (file_mappings entries)
parse_linux_maps-IsFileMapping_example =
    parse_linux_maps-IsFileMapping (print_maps entries) (file_mappings entries) parsed

abbrev one_space : List ℕ
one_space = 0x20 ∷ []

-- AT_SYSINFO_EHDR in words of eight bytes.
looks_like_linux_maps_lem_example :
    (looks_like_linux_maps ((lower_hex 8 0x10000 ++ (dash ∷ lower_hex 8 0x12000)) ++ one_space)
      ≡ true)
    × (looks_like_linux_maps (le_bytes 8 33 ++ one_space) ≡ false)
looks_like_linux_maps_lem_example =
    looks_like_linux_maps_lem 8 8 0x10000 0x12000 6 33 one_space (omega arith) (omega arith)
      (omega arith) (omega arith)

-- `l.so.6`
abbrev library_name : List ℕ
library_name = b'l' ∷ b'.' ∷ b's' ∷ b'o' ∷ b'.' ∷ b'6' ∷ []

looks_like_shared_lib_lem_example :
    ((answer : Bool) × (shared_lib_loop (suc (length library_name)) library_name ≡ some answer))
    × ((looks_like_shared_lib library_name ≡ true) ↔ IsSharedLibName library_name)
looks_like_shared_lib_lem_example = looks_like_shared_lib_lem library_name

-- `/x/l.so.6` under `d//`.
abbrev library_module : MinidumpModule
library_module = record {
  base_of_image = 0x30000;
  size_of_image = 0x1000;
  name = b'/' ∷ b'x' ∷ b'/' ∷ library_name;
  codeview_info = none;
}

abbrev local_dir : List ℕ
local_dir = b'd' ∷ b'/' ∷ b'/' ∷ []

abbrev local_options : ConvertOptions
local_options = record { mangle_sonames = true; so_base_dir = some local_dir }

signature_for_lem_example :
    (front : List ℕ) × (n : ℕ) × (local_dir ≡ front ++ replicate n slash)
    × (¬ EndsInSlash front)
    × (signature_for library_module local_options ≡ front ++ (slash ∷ basename library_module.name))
    × (basename (signature_for library_module local_options) ≡ basename library_module.name)
signature_for_lem_example = signature_for_lem library_module local_options local_dir refl
