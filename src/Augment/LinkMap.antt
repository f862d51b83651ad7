-- ===== src/Augment/LinkMap.antt =====
-- `build_link_map_blob` of src/augment.rs: the `r_debug` structure and the link map that it points to.
pub mod Chain
pub mod Records
pub mod Build
use minidump2core.Prelude.{
  ℕ, ◌+◌, ◌-◌, ◌*◌, ◌%◌, ◌^◌, Option, none, some, List, [], ◌∷◌, ◌++◌, String, length, ltb, ◌==◌,
  if◌then◌else◌,
}
use minidump2core.Error.{Result, ok, err, ◌>>=◌, integer_overflow}
use minidump2core.Bytes.{le_bytes, resize}
use minidump2core.BTreeMap.{BTreeMap}
use minidump2core.BTreeMap
use minidump2core.Model.Architecture.{Architecture, is_64bit, long_size}
use minidump2core.Model.Process.{LinkMapEntry, DsoDebug}
use mathlib.Core.Option

abbrev pub link_map_addr : ℕ
link_map_addr = 4096

unfoldable pub push_word : List ℕ → ℕ → ℕ → Result (List ℕ)
push_word out value word =
    if word == 8
    then ok (out ++ le_bytes 8 value)
    else (if ltb value (2 ^ 32)
        then ok (out ++ le_bytes 4 value)
        else err (integer_overflow "32-bit link-map word"))

-- `LinkNameLookup::name_for`
unfoldable pub name_for : BTreeMap (List ℕ) → LinkMapEntry → List ℕ
name_for signatures entry = Option.get_or (BTreeMap.get entry.addr signatures) entry.name

-- `8 - (n & 7)`
abbrev pub name_pad : ℕ → ℕ
name_pad n = 8 - n % 8

unfoldable pub filename_padded_size : List ℕ → ℕ
filename_padded_size s = length s + name_pad (length s)

unfoldable pub link_map_record_addr : ℕ → List ℕ → ℕ → ℕ → ℕ
link_map_record_addr base current_data link_map_size prev_name_block =
    base + length current_data - prev_name_block - link_map_size

-- `prev`, from the entry before this one, where there is one.
unfoldable pub prev_addr : BTreeMap (List ℕ) → ℕ → List ℕ → Option LinkMapEntry → ℕ
unfolding link_map_record_addr filename_padded_size
prev_addr signatures link_map_size bytes none = 0
prev_addr signatures link_map_size bytes (some before) =
    link_map_record_addr link_map_addr bytes link_map_size
      (filename_padded_size (name_for signatures before))

-- `next`, from the entries behind this one.
unfoldable pub next_addr : ℕ → List ℕ → List ℕ → List LinkMapEntry → ℕ
unfolding filename_padded_size
next_addr link_map_size bytes filename [] = 0
next_addr link_map_size bytes filename (e ∷ es) =
    link_map_addr + length bytes + link_map_size + filename_padded_size filename

-- The loop over the entries: `before` is the entry at `i - 1`.
unfoldable pub push_link_maps :
    BTreeMap (List ℕ) → ℕ → Option LinkMapEntry → List LinkMapEntry → List ℕ → Result (List ℕ)
unfolding prev_addr next_addr
push_link_maps signatures word before [] bytes = ok bytes
push_link_maps signatures word before (entry ∷ entries) bytes = do
  let link_map_size = 5 * word
  let filename = name_for signatures entry
  let name_offset = link_map_addr + length bytes + link_map_size
  addressed ← push_word bytes entry.addr word
  named ← push_word addressed name_offset word
  loaded ← push_word named entry.ld word
  forward ← push_word loaded (next_addr link_map_size bytes filename entries) word
  linked ← push_word forward (prev_addr signatures link_map_size bytes before) word
  let written = linked ++ filename
  push_link_maps signatures word (some entry) entries
      (resize written (length written + name_pad (length filename)))

abbrev pub r_debug_size : Architecture → ℕ
r_debug_size arch = if is_64bit arch then 40 else 20

abbrev pub r_map : Architecture → List LinkMapEntry → ℕ
r_map arch [] = 0
r_map arch (e ∷ es) = link_map_addr + r_debug_size arch

unfoldable pub build_link_map_blob : Architecture → DsoDebug → BTreeMap (List ℕ) → Result (List ℕ)
unfolding push_link_maps
build_link_map_blob arch dso signatures = do
  let word = long_size arch
  versioned ← push_word [] dso.version word
  mapped ← push_word versioned (r_map arch dso.link_map) word
  broken ← push_word mapped dso.brk word
  consistent ← push_word broken 0 word
  based ← push_word consistent dso.ldbase word
  push_link_maps signatures word none dso.link_map based
