-- ===== src/LinuxMaps/Printed/RoundTrip.antt =====
-- `parse_linux_maps` on the text that the kernel prints.
use minidump2core.Prelude.{
  ℕ, suc, ◌^◌, ◌<◌, ◌≡◌, refl, ap, ◌∙◌, arith, Bool, true, false, Option, none, some, List, [], ◌∷◌,
  ◌++◌, if◌then◌else◌, All, get_elem?,
}
use minidump2core.Error.{ok}
use minidump2core.Text.Utf8.{from_utf8, encode}
use minidump2core.Text.Split.{lines, starts_with}
use minidump2core.Text.Hex.{lower_hex}
use minidump2core.Text.Hex.RoundTrip.{IsDigit, lower_hex-IsDigit, from-lower_hex}
use minidump2core.Model.Mapping.{Mapping, permissions, new_mapping, with_file}
use minidump2core.LinuxMaps.{
  dash, slash, parse_linux_maps, parse_maps_lines, parse_maps_line, maps_words, maps_mapping,
  file_mapping, parse_hex_u64, push_some, before_dash, behind_dash, contains_char,
}
use minidump2core.LinuxMaps.Printed.{
  Backing, anonymous, special, file, MapsEntry, IsEntry, IsBacking, print_range, print_permissions,
  print_entry, print_maps, file_of, file_mappings, flag,
}
use minidump2core.LinuxMaps.Printed.Words.{backing_words, words-print_entry, lines-print_entry}

digits-before_dash :
    (digits rest : List ℕ) → All IsDigit digits → before_dash (digits ++ (dash ∷ rest)) ≡ digits
unfolding before_dash
digits-before_dash [] rest h = refl
digits-before_dash (c ∷ cs) rest h = ground (arith, h.0, digits-before_dash cs rest h.1)

digits-behind_dash :
    (digits rest : List ℕ) → All IsDigit digits → behind_dash (digits ++ (dash ∷ rest)) ≡ some rest
unfolding behind_dash
digits-behind_dash [] rest h = refl
digits-behind_dash (c ∷ cs) rest h = ground (arith, h.0, digits-behind_dash cs rest h.1)

parse_hex_u64-digits :
    (k v : ℕ) (line : List ℕ)
    → v < 16 ^ suc k
    → v < 2 ^ 64
    → parse_hex_u64 (some (lower_hex (suc k) v)) line ≡ ok v
unfolding parse_hex_u64
parse_hex_u64-digits k v line h b = rw (from-lower_hex k v h b) refl

-- The three letters are found where they are printed.
print_permissions-contains_char :
    (e : MapsEntry)
    → permissions
        (contains_char b'r' (print_permissions e))
        (contains_char b'w' (print_permissions e))
        (contains_char b'x' (print_permissions e))
      ≡ permissions e.readable e.writable e.executable
unfolding print_permissions contains_char
print_permissions-contains_char e = letters e.readable e.writable e.executable e.shared
  where
    letters :
        (r w x s : Bool)
        → permissions
            (contains_char b'r'
              (flag r b'r' ∷ (flag w b'w' ∷ (flag x b'x' ∷ ((if s then b's' else b'p') ∷ [])))))
            (contains_char b'w'
              (flag r b'r' ∷ (flag w b'w' ∷ (flag x b'x' ∷ ((if s then b's' else b'p') ∷ [])))))
            (contains_char b'x'
              (flag r b'r' ∷ (flag w b'w' ∷ (flag x b'x' ∷ ((if s then b's' else b'p') ∷ [])))))
          ≡ permissions r w x
    letters true true true true = refl
    letters true true true false = refl
    letters true true false true = refl
    letters true true false false = refl
    letters true false true true = refl
    letters true false true false = refl
    letters true false false true = refl
    letters true false false false = refl
    letters false true true true = refl
    letters false true true false = refl
    letters false true false true = refl
    letters false true false false = refl
    letters false false true true = refl
    letters false false true false = refl
    letters false false false true = refl
    letters false false false false = refl

abbrev mapping_at : MapsEntry → Backing → Option Mapping
mapping_at e anonymous = none
mapping_at e (special c name) = none
mapping_at e (file name) = some (record {
  start_address = e.start;
  end_address = e.end_address;
  offset = e.offset;
  permissions = permissions e.readable e.writable e.executable;
  filename = some (encode (slash ∷ name));
  bytes = [];
})

new_mapping-ordered :
    (start end_address : ℕ) (e : MapsEntry)
    → start < end_address
    → new_mapping start end_address (permissions e.readable e.writable e.executable)
      ≡ ok (record {
        start_address = start;
        end_address = end_address;
        offset = 0;
        permissions = permissions e.readable e.writable e.executable;
        filename = none;
        bytes = [];
      })
unfolding new_mapping
new_mapping-ordered start end_address e h = ground arith

file_mapping-entry :
    (e : MapsEntry) (b : Backing)
    → e.start < e.end_address
    → IsBacking b
    → file_mapping e.start e.end_address e.offset
        (print_permissions e)
        (get_elem? (e.device ∷ (e.inode ∷ backing_words b)) 2)
      ≡ ok (mapping_at e b)
unfolding file_mapping starts_with with_file
file_mapping-entry e anonymous h k = refl
file_mapping-entry e (special c name) h k = ground (arith, k.0)
file_mapping-entry e (file name) h k =
    rw (print_permissions-contains_char e) (rw (new_mapping-ordered e.start e.end_address e h) refl)

maps_mapping-entry :
    (e : MapsEntry) (line : List ℕ) (name : Option (List ℕ))
    → IsEntry e
    → maps_mapping line
        (print_range e)
        (print_permissions e)
        (lower_hex (suc e.offset_width) e.offset)
        name
      ≡ file_mapping e.start e.end_address e.offset (print_permissions e) name
unfolding maps_mapping print_range
maps_mapping-entry e line name h =
    rw
      (digits-before_dash (lower_hex (suc e.start_width) e.start)
        (lower_hex (suc e.end_width) e.end_address) (lower_hex-IsDigit (suc e.start_width) e.start))
      (rw
        (digits-behind_dash (lower_hex (suc e.start_width) e.start)
          (lower_hex (suc e.end_width) e.end_address)
          (lower_hex-IsDigit (suc e.start_width) e.start))
        (rw (parse_hex_u64-digits e.start_width e.start line h.start_digits start_bound) (
          rw (parse_hex_u64-digits e.end_width e.end_address line h.end_digits h.end_bound) (
            rw (parse_hex_u64-digits e.offset_width e.offset line h.offset_digits h.offset_bound)
              refl))))
  where
    start_bound : e.start < 2 ^ 64
    start_bound = omega (arith, h.not_empty, h.end_bound)

parse_maps_line-entry :
    (e : MapsEntry) → IsEntry e → parse_maps_line (print_entry e) ≡ ok (mapping_at e e.backing)
unfolding parse_maps_line maps_words
parse_maps_line-entry e h =
    ap (maps_words (print_entry e)) (words-print_entry e h)
    ∙ maps_mapping-entry e (print_entry e)
        (get_elem? (e.device ∷ (e.inode ∷ backing_words e.backing)) 2) h
    ∙ file_mapping-entry e e.backing h.not_empty h.backing_word

push_some-mapping_at :
    (e : MapsEntry) (b : Backing) (rest : List Mapping)
    → push_some (mapping_at e b) rest ≡ file_of e b rest
push_some-mapping_at e anonymous rest = refl
push_some-mapping_at e (special c name) rest = refl
push_some-mapping_at e (file name) rest = refl

parse_maps_lines-print :
    (es : List MapsEntry)
    → All IsEntry es
    → parse_maps_lines (lines (print_maps es)) ≡ ok (file_mappings es)
unfolding parse_maps_lines print_maps file_mappings lines
parse_maps_lines-print [] h = refl
parse_maps_lines-print (e ∷ es) h =
    ap parse_maps_lines (lines-print_entry e (print_maps es) h.0)
    ∙ rw (parse_maps_line-entry e h.0) (
        rw (parse_maps_lines-print es h.1)
          (ap ok (push_some-mapping_at e e.backing (file_mappings es))))

-- On the text that the kernel prints for a list of mappings (each range not empty, its numbers below
-- 2 ^ 64 and within the digits printed, device, inode and name without white space, and a name that
-- does not start with `/` not taken for a path), in any digit width, `parse_linux_maps` succeeds and
-- returns exactly the mappings of files, in order, with their permissions, file offset and path.
pub parse_linux_maps-print_maps :
    (data_bytes : List ℕ) (es : List MapsEntry)
    → All IsEntry es
    → from_utf8 data_bytes ≡ some (print_maps es)
    → parse_linux_maps data_bytes ≡ ok (file_mappings es)
unfolding parse_linux_maps
parse_linux_maps-print_maps data_bytes es h text = rw text (parse_maps_lines-print es h)
