-- ===== src/LinuxMaps.antt =====
-- src/linux_maps.rs: the mappings in the text of /proc/<pid>/maps.
pub mod Sound
pub mod Printed
use minidump2core.Prelude.{
  ℕ, Bool, true, false, ◌&&◌, ◌||◌, Option, none, some, List, [], ◌∷◌, String, leb, ◌==◌,
  if◌then◌else◌, length, get_elem?, take,
}
use minidump2core.Error.{Result, ok, err, ◌>>=◌, ok_or, invalid_utf8, invalid_maps_line}
use minidump2core.Text.Utf8.{from_utf8, encode}
use minidump2core.Text.Split.{lines, split_whitespace, starts_with}
use minidump2core.Text.Hex.{from_hex}
use minidump2core.Model.Mapping.{Mapping, permissions, new_mapping, with_file}

abbrev pub dash : ℕ
dash = 0x2d

abbrev pub slash : ℕ
slash = 0x2f

-- `iter().all(test)`
unfoldable pub all : (ℕ → Bool) → List ℕ → Bool
all test [] = true
all test (b ∷ bs) = test b && all test bs

-- `byte.is_ascii_hexdigit() || *byte == b'-'`
unfoldable pub is_range_byte : ℕ → Bool
is_range_byte b =
    (leb 0x30 b && leb b 0x39)
    || ((leb 0x41 b && leb b 0x46) || ((leb 0x61 b && leb b 0x66) || (b == dash)))

unfoldable pub looks_like_linux_maps : List ℕ → Bool
unfolding all is_range_byte
looks_like_linux_maps bytes =
    if leb (length bytes) 17 then false else all is_range_byte (take 17 bytes)

unfoldable pub parse_hex_u64 : Option (List ℕ) → List ℕ → Result ℕ
parse_hex_u64 none line = err (invalid_maps_line (encode line))
parse_hex_u64 (some value) line = ok_or (from_hex value) (invalid_maps_line (encode line))

-- `splitn(2, '-')`: what is in front of the first `-`, and what is behind it.
unfoldable pub before_dash : List ℕ → List ℕ
before_dash [] = []
before_dash (c ∷ cs) = if c == dash then [] else c ∷ before_dash cs

unfoldable pub behind_dash : List ℕ → Option (List ℕ)
behind_dash [] = none
behind_dash (c ∷ cs) = if c == dash then some cs else behind_dash cs

unfoldable pub contains_char : ℕ → List ℕ → Bool
contains_char wanted [] = false
contains_char wanted (c ∷ cs) = (c == wanted) || contains_char wanted cs

-- A line without a path from the root gives no mapping.
unfoldable pub file_mapping : ℕ → ℕ → ℕ → List ℕ → Option (List ℕ) → Result (Option Mapping)
unfolding starts_with contains_char
file_mapping start end_address file_offset perms none = ok none
file_mapping start end_address file_offset perms (some name) =
    if starts_with (λ c. c == slash) name
    then (new_mapping start end_address (
          permissions (contains_char b'r' perms) (contains_char b'w' perms)
            (contains_char b'x' perms))
        >>= λ mapping. ok (some (with_file mapping (encode name) file_offset)))
    else ok none

-- A line with its three first words, from where the numbers are read.
unfoldable pub maps_mapping :
    List ℕ → List ℕ → List ℕ → List ℕ → Option (List ℕ) → Result (Option Mapping)
unfolding parse_hex_u64 before_dash behind_dash file_mapping
maps_mapping line range perms offset filename =
    parse_hex_u64 (some (before_dash range)) line >>= λ start.
    parse_hex_u64 (behind_dash range) line >>= λ end_address.
    parse_hex_u64 (some offset) line >>= λ file_offset.
    file_mapping start end_address file_offset perms filename

-- The name is the third word behind these: device and inode stand between.
unfoldable pub maps_words : List ℕ → List (List ℕ) → Result (Option Mapping)
unfolding maps_mapping
maps_words line (range ∷ (perms ∷ (offset ∷ rest))) =
    maps_mapping line range perms offset (get_elem? rest 2)
maps_words line words = err (invalid_maps_line (encode line))

unfoldable pub parse_maps_line : List ℕ → Result (Option Mapping)
unfolding maps_words
parse_maps_line line = maps_words line (split_whitespace line)

abbrev pub push_some : Option Mapping → List Mapping → List Mapping
push_some none mappings = mappings
push_some (some mapping) mappings = mapping ∷ mappings

unfoldable pub parse_maps_lines : List (List ℕ) → Result (List Mapping)
unfolding parse_maps_line
parse_maps_lines [] = ok []
parse_maps_lines (line ∷ rest) = parse_maps_line line >>= λ mapping.
    parse_maps_lines rest >>= λ mappings. ok (push_some mapping mappings)

abbrev pub maps_stream : String
maps_stream = "MD_LINUX_MAPS"

unfoldable pub parse_linux_maps : List ℕ → Result (List Mapping)
unfolding parse_maps_lines
parse_linux_maps bytes =
    ok_or (from_utf8 bytes) (invalid_utf8 maps_stream) >>= λ text. parse_maps_lines (lines text)
