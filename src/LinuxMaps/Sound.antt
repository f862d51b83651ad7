-- ===== src/LinuxMaps/Sound.antt =====
-- What `parse_linux_maps` returns.
use minidump2core.Prelude.{
  ℕ, ◌+◌, ◌*◌, ◌^◌, ◌<◌, ◌≡◌, refl, ap, sym, ◌∙◌, arith, Option, none, some, List, [], ◌∷◌, ltb,
  ◌==◌, All, get_elem?, inl, inr, Option-cases, Bool-cases, ltb→lt,
}
use mathlib.Core.Path.{subst}
use minidump2core.Error.{ok, >>=-eq-ok, ok-injective, ok_or}
use minidump2core.Text.Utf8.{from_utf8, encode, encode_char}
use minidump2core.Text.Split.{lines, split_whitespace, starts_with}
use minidump2core.Text.Hex.{from_hex, hex_digits, digit_value}
use minidump2core.Model.Mapping.{Mapping, new_mapping, with_file}
use minidump2core.LinuxMaps.{
  parse_linux_maps, parse_maps_lines, parse_maps_line, maps_words, maps_mapping, file_mapping,
  parse_hex_u64, slash, push_some, before_dash, behind_dash,
}

-- A mapping of a file: its range is not empty, the numbers have 64 bits, the name is a path from the
-- root, and nothing is captured yet.
pub record IsFileMapping (m : Mapping) : Type 0 where
  pub not_empty : m.start_address < m.end_address
  pub end_bound : m.end_address < 2 ^ 64
  pub offset_bound : m.offset < 2 ^ 64
  pub path : (rest : List ℕ) × (m.filename ≡ some (slash ∷ rest))
  pub no_bytes : m.bytes ≡ []

pub hex_digits-bound :
    (acc : ℕ) (cs : List ℕ) (v : ℕ) → acc < 2 ^ 64 → hex_digits acc cs ≡ some v → v < 2 ^ 64
unfolding hex_digits
hex_digits-bound acc [] v h e = ground (arith)
hex_digits-bound acc (c ∷ cs) v h e = elim (Option-cases (digit_value c)) [
  | inl n ↦ absurd (ground (arith, n))
  | inr (d, s) ↦ elim (Bool-cases (ltb (acc * 16 + d) (2 ^ 64))) [
    | inl t ↦
        hex_digits-bound (acc * 16 + d) cs v (ltb→lt (acc * 16 + d) (2 ^ 64) t)
          (sym (rw (s, hex_digits) (rw (t, hex_digits) refl)) ∙ e)
    | inr f ↦ absurd (ground (arith, s, f))
  ]
]

from_hex-bound : (cs : List ℕ) (v : ℕ) → from_hex cs ≡ some v → v < 2 ^ 64
unfolding from_hex
from_hex-bound [] v e = absurd (ground arith)
from_hex-bound (c ∷ []) v e = elim (Bool-cases (c == 0x2b)) [
  | inl t ↦ absurd (ground (arith, t))
  | inr f ↦ hex_digits-bound 0 (c ∷ []) v (omega arith) (ground (arith, f))
]
from_hex-bound (c ∷ (d ∷ cs)) v e = elim (Bool-cases (c == 0x2b)) [
  | inl t ↦ hex_digits-bound 0 (d ∷ cs) v (omega arith) (ground (arith, t))
  | inr f ↦ hex_digits-bound 0 (c ∷ (d ∷ cs)) v (omega arith) (ground (arith, f))
]

parse_hex_u64-bound :
    (value : Option (List ℕ)) (line : List ℕ) (v : ℕ) → parse_hex_u64 value line ≡ ok v → v < 2 ^ 64
unfolding parse_hex_u64
parse_hex_u64-bound none line v e = absurd (ground arith)
parse_hex_u64-bound (some cs) line v e = elim (Option-cases (from_hex cs)) [
  | inl n ↦ absurd (ground (arith, n))
  | inr (w, s) ↦ from_hex-bound cs v (ground (arith, s))
]

file_mapping-IsFileMapping :
    (start end_address file_offset : ℕ) (perms : List ℕ) (filename : Option (List ℕ)) (m : Mapping)
    → end_address < 2 ^ 64
    → file_offset < 2 ^ 64
    → file_mapping start end_address file_offset perms filename ≡ ok (some m)
    → IsFileMapping m
unfolding file_mapping starts_with new_mapping with_file encode encode_char
file_mapping-IsFileMapping start end_address file_offset perms none m h k e = absurd (ground arith)
file_mapping-IsFileMapping start end_address file_offset perms (some []) m h k e =
    absurd (ground arith)
file_mapping-IsFileMapping start end_address file_offset perms (some (c ∷ cs)) m h k e = record {
  not_empty = ground arith;
  end_bound = ground arith;
  offset_bound = ground arith;
  path = (encode cs, ground arith);
  no_bytes = ground arith;
}

maps_mapping-IsFileMapping :
    (line range perms offset : List ℕ) (filename : Option (List ℕ)) (m : Mapping)
    → maps_mapping line range perms offset filename ≡ ok (some m)
    → IsFileMapping m
unfolding maps_mapping
maps_mapping-IsFileMapping line range perms offset filename m e =
    let (start, s, e1) = >>=-eq-ok (parse_hex_u64 (some (before_dash range)) line) _ e in
    let (end_address, t, e2) = >>=-eq-ok (parse_hex_u64 (behind_dash range) line) _ e1 in
    let (file_offset, u, e3) = >>=-eq-ok (parse_hex_u64 (some offset) line) _ e2 in
    file_mapping-IsFileMapping start end_address file_offset perms filename m
      (parse_hex_u64-bound (behind_dash range) line end_address t)
      (parse_hex_u64-bound (some offset) line file_offset u) e3

maps_words-IsFileMapping :
    (line : List ℕ) (words : List (List ℕ)) (m : Mapping)
    → maps_words line words ≡ ok (some m)
    → IsFileMapping m
unfolding maps_words
maps_words-IsFileMapping line [] m e = absurd (ground arith)
maps_words-IsFileMapping line (a ∷ []) m e = absurd (ground arith)
maps_words-IsFileMapping line (a ∷ (b ∷ [])) m e = absurd (ground arith)
maps_words-IsFileMapping line (range ∷ (perms ∷ (offset ∷ rest))) m e =
    maps_mapping-IsFileMapping line range perms offset (get_elem? rest 2) m e

parse_maps_line-IsFileMapping :
    (line : List ℕ) (m : Mapping) → parse_maps_line line ≡ ok (some m) → IsFileMapping m
unfolding parse_maps_line
parse_maps_line-IsFileMapping line m e = maps_words-IsFileMapping line (split_whitespace line) m e

push_some-IsFileMapping :
    (found : Option Mapping) (mappings : List Mapping)
    → ((m : Mapping) → found ≡ some m → IsFileMapping m)
    → All IsFileMapping mappings
    → All IsFileMapping (push_some found mappings)
push_some-IsFileMapping none mappings h k = k
push_some-IsFileMapping (some m) mappings h k = (h m refl, k)

parse_maps_lines-IsFileMapping :
    (texts : List (List ℕ)) (mappings : List Mapping)
    → parse_maps_lines texts ≡ ok mappings
    → All IsFileMapping mappings
unfolding parse_maps_lines
parse_maps_lines-IsFileMapping [] mappings e = subst (All IsFileMapping) (ok-injective e) tt
parse_maps_lines-IsFileMapping (line ∷ rest) mappings e =
    let (found, s, e1) = >>=-eq-ok (parse_maps_line line) _ e in
    let (later, t, e2) = >>=-eq-ok (parse_maps_lines rest) _ e1 in
    subst (All IsFileMapping) (ok-injective e2) (
      push_some-IsFileMapping found later
        (λ m r. parse_maps_line-IsFileMapping line m (s ∙ ap ok r))
        (parse_maps_lines-IsFileMapping rest later t))

-- Every mapping that `parse_linux_maps` returns has a range that is not empty, an end and a file offset
-- of 64 bits, the name of a file that starts with `/`, and no bytes.
pub parse_linux_maps-IsFileMapping :
    (data_bytes : List ℕ) (mappings : List Mapping)
    → parse_linux_maps data_bytes ≡ ok mappings
    → All IsFileMapping mappings
unfolding parse_linux_maps
parse_linux_maps-IsFileMapping data_bytes mappings e =
    let (text, s, e1) = >>=-eq-ok (ok_or (from_utf8 data_bytes) _) _ e in
    parse_maps_lines-IsFileMapping (lines text) mappings e1
