-- ===== src/Augment/Dynamic.antt =====
-- `patch_dt_debug` of src/augment.rs, against the same on a list of tags and values.
pub mod Entries
pub mod Patch
use minidump2core.Prelude.{
  ℕ, zero, suc, ◌+◌, ◌/◌, ◌^◌, List, [], ◌∷◌, length, ltb, leb, ◌==◌, if◌then◌else◌,
}
use minidump2core.Error.{Result, ok, err, ◌>>=◌, integer_overflow}
use minidump2core.Bytes.{le_bytes, from_le_bytes, slice, copy_front, write_at}
use minidump2core.Model.Architecture.{Architecture, is_64bit}

abbrev pub dt_null : ℕ
dt_null = 0

abbrev pub dt_debug : ℕ
dt_debug = 21

unfoldable pub read_word_pair : Architecture → List ℕ → ℕ × ℕ
read_word_pair arch bytes =
    if is_64bit arch
    then (from_le_bytes (slice 0 8 bytes), from_le_bytes (slice 8 8 bytes))
    else (from_le_bytes (slice 0 4 bytes), from_le_bytes (slice 4 4 bytes))

-- `write_word`, on a slot of at least one word.
unfoldable pub write_word : Architecture → List ℕ → ℕ → Result (List ℕ)
write_word arch slot value =
    if is_64bit arch
    then ok (copy_front 8 slot (le_bytes 8 value))
    else (if ltb value (2 ^ 32)
        then ok (copy_front 4 slot (le_bytes 4 value))
        else err (integer_overflow "32-bit dynamic word"))

abbrev pub entry_size : Architecture → ℕ
entry_size arch = if is_64bit arch then 16 else 8

-- The loop, for at most `fuel` entries from `offset` on.
unfoldable pub patch_from : ℕ → Architecture → ℕ → List ℕ → ℕ → Result (List ℕ)
patch_from zero arch offset dynamic_data link_map_addr = ok dynamic_data
patch_from (suc fuel) arch offset dynamic_data link_map_addr =
    let entry : ℕ = entry_size arch in
    let rest = patch_from fuel arch (offset + entry) dynamic_data link_map_addr in
    if leb (offset + entry) (length dynamic_data)
    then (let tag : ℕ = (read_word_pair arch (slice offset entry dynamic_data)).0 in
        if tag == dt_debug
        then (let value_off : ℕ = offset + entry / 2 in
            write_word arch (slice value_off (entry / 2) dynamic_data) link_map_addr >>= λ slot.
            ok (write_at value_off slot dynamic_data))
        else (if tag == dt_null then ok dynamic_data else rest))
    else ok dynamic_data

-- Every entry has more than one byte, so that there are fewer entries than bytes.
unfoldable pub patch_dt_debug : Architecture → List ℕ → ℕ → Result (List ℕ)
unfolding patch_from
patch_dt_debug arch dynamic_data link_map_addr =
    patch_from (length dynamic_data) arch 0 dynamic_data link_map_addr
