-- ===== src/Notes.antt =====
-- src/notes.rs: one ELF note, and the descriptors of NT_PRPSINFO, NT_PRSTATUS and NT_FILE. An `out`
-- that a function appends to is an argument and its result.
pub mod Layout
pub mod Parse
pub mod RoundTrip
pub mod Prpsinfo
pub mod Prstatus
pub mod FilePayload
use minidump2core.Prelude.{
  ℕ, ◌+◌, ◌-◌, ◌/◌, ◌%◌, ◌^◌, ◌*◌, Bool, not, ◌&&◌, ◌||◌, Option, none, some, List, [], ◌∷◌, ◌++◌,
  String, length, take, ltb, leb, ◌==◌, if◌then◌else◌, zero, suc, true,
}
use minidump2core.Error.{Result, ok, err, panic, ◌>>=◌, integer_overflow}
use minidump2core.Bytes.{le_bytes, resize}
use minidump2core.BTreeMap.{BTreeMap, values}
use minidump2core.Writer.{Write, Action, write_all, vec_write}
use minidump2core.Elf.{NoteHeader, write_note_header}
use minidump2core.Model.Architecture.{Architecture, long_size, prpsinfo_uid_is_u32}
use minidump2core.Model.Mapping.{Mapping, default_page_size}
use minidump2core.Model.ProcessInfo.{ProcessInfo}
use mathlib.Core.List.{get_last?}

abbrev pub note_align : ℕ
note_align = 4

pub record Note : Type 0 where
  pub bytes : List ℕ

unfoldable pub pad_to : List ℕ → ℕ → List ℕ
pad_to out align =
    let rem = length out % align in
    if rem == 0 then out else resize out (length out + (align - rem))

-- `last() != Some(&0)`
unfoldable pub lacks_nul : List ℕ → Bool
lacks_nul name = elim (get_last? name) [ none ↦ true | some b ↦ not (b == 0) ]

unfoldable pub nul_terminated : List ℕ → List ℕ
unfolding lacks_nul
nul_terminated name = if lacks_nul name then name ++ (0 ∷ []) else name

-- `u32::try_from(n).expect(message)`
abbrev pub expect_u32 : ℕ → String → Result ℕ
expect_u32 n message = if ltb n (2 ^ 32) then ok n else panic message

-- `Note::build`
unfoldable pub build_note : List ℕ → ℕ → List ℕ → Result Note
build_note name n_type desc = do
  let name_bytes = nul_terminated name
  n_namesz ← expect_u32 (length name_bytes) "note name too large"
  n_descsz ← expect_u32 (length desc) "note descriptor too large"
  header ←
      write_note_header (record { n_namesz = n_namesz; n_descsz = n_descsz; n_type = n_type }) []
  let named = pad_to (header ++ name_bytes) note_align
  ok (record { bytes = pad_to (named ++ desc) note_align })

-- `Note::write`
unfoldable pub write_note : {W : Type 0} ⦃wr : Write W⦄ → Note → Action W
write_note n = write_all n.bytes

unfoldable pub push_long : List ℕ → ℕ → ℕ → List ℕ
push_long out value size =
    if size == 8 then out ++ le_bytes 8 value else out ++ take 4 (le_bytes 8 value)

unfoldable pub try_push_long : List ℕ → ℕ → ℕ → String → Result (List ℕ)
try_push_long out value size field =
    if size == 8
    then ok (out ++ le_bytes 8 value)
    else (if ltb value (2 ^ 32) then ok (out ++ le_bytes 4 value) else err (integer_overflow field))

unfoldable pub pad : List ℕ → ℕ → List ℕ
pad out align =
    let rem = length out % align in
    if rem == 0 then out else resize out (length out + (align - rem))

-- `pr_uid` and `pr_gid`
unfoldable pub push_ids : Architecture → List ℕ → List ℕ
push_ids arch out =
    if prpsinfo_uid_is_u32 arch
    then (out ++ le_bytes 4 0) ++ le_bytes 4 0
    else (out ++ le_bytes 2 0) ++ le_bytes 2 0

unfoldable pub build_prpsinfo : Architecture → ProcessInfo → List ℕ
unfolding push_ids
build_prpsinfo arch info =
    let long = long_size arch in
    let state = 0 ∷ b'R' ∷ 0 ∷ 0 ∷ [] in
    let flagged = push_long (pad state long) 0 long in
    let owned = push_ids arch flagged in
    let pids = (((owned ++ le_bytes 4 info.pid) ++ le_bytes 4 0) ++ le_bytes 4 0) ++ le_bytes 4 0 in
    (pids ++ info.filename) ++ info.arguments

-- `i16::try_from(v).unwrap_or(i16::MAX)` for an `i32` given by its bit pattern.
unfoldable pub i16_or_max : ℕ → ℕ
i16_or_max v = if ltb v (2 ^ 15) || leb (2 ^ 32 - 2 ^ 15) v then v % 2 ^ 16 else 2 ^ 15 - 1

-- `for _ in 0..n { push_long(&mut out, 0, long) }`
unfoldable pub push_zeros : ℕ → List ℕ → ℕ → List ℕ
unfolding push_long
push_zeros zero out long = out
push_zeros (suc n) out long = push_zeros n (push_long out 0 long) long

unfoldable pub build_prstatus : Architecture → ℕ → ℕ → List ℕ → Bool → List ℕ
unfolding push_zeros
build_prstatus arch tid fatal_signal pr_reg fp_valid =
    let long = long_size arch in
    let siginfo = (le_bytes 4 fatal_signal ++ le_bytes 4 0) ++ le_bytes 4 0 in
    let cursig = pad (siginfo ++ le_bytes 2 (i16_or_max fatal_signal)) long in
    let signals = push_long (push_long cursig 0 long) 0 long in
    let pids = (((signals ++ le_bytes 4 tid) ++ le_bytes 4 0) ++ le_bytes 4 0) ++ le_bytes 4 0 in
    let times = push_zeros 8 pids long in
    let registers = times ++ pr_reg in
    pad (registers ++ le_bytes 4 (if fp_valid then 1 else 0)) long

-- The mappings with a file name, and the name: `filter_map` over the values.
unfoldable pub named_entries : List Mapping → List (Mapping × List ℕ)
named_entries [] = []
named_entries (m ∷ ms) = elim (m.filename) [
  | none ↦ named_entries ms
  | some name ↦ (m, name) ∷ named_entries ms
]

unfoldable pub push_entries : List ℕ → List (Mapping × List ℕ) → ℕ → Result (List ℕ)
push_entries out [] word = ok out
push_entries out ((m, name) ∷ entries) word = do
  started ← try_push_long out m.start_address word "NT_FILE mapping start"
  ended ← try_push_long started m.end_address word "NT_FILE mapping end"
  let page_ofs = m.offset / default_page_size
  placed ← try_push_long ended page_ofs word "NT_FILE mapping offset"
  push_entries placed entries word

unfoldable pub push_names : List ℕ → List (Mapping × List ℕ) → List ℕ
push_names out [] = out
push_names out ((m, name) ∷ entries) = push_names ((out ++ name) ++ (0 ∷ [])) entries

-- The number of entries is a `usize`, which `u64::try_from` takes.
unfoldable pub build_nt_file_payload : Architecture → BTreeMap Mapping → Result (List ℕ)
build_nt_file_payload arch mappings = do
  let word = long_size arch
  let entries = named_entries (values mappings)
  counted ← try_push_long [] (length entries) word "NT_FILE entry count"
  paged ← try_push_long counted default_page_size word "NT_FILE page size"
  placed ← push_entries paged entries word
  ok (push_names placed entries)
