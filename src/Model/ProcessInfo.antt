-- ===== src/Model/ProcessInfo.antt =====
-- `ProcessInfo` of src/model.rs: `pr_fname[16]` and `pr_psargs[80]` as byte arrays.
pub mod Terminated
use minidump2core.Prelude.{
  ℕ, ◌+◌, ◌-◌, Bool, not, ◌||◌, Option, none, some, List, [], ◌∷◌, length, take, drop, replicate,
  map, ◌==◌, if◌then◌else◌, min, ◌++◌,
}
use minidump2core.Bytes.{eq_bytes, copy_front, position, rposition}
use mathlib.Core.Option

pub record ProcessInfo : Type 0 where
  pub filename : List ℕ
  pub arguments : List ℕ
  pub pid : ℕ

abbrev pub slash : ℕ
slash = b'/'

-- The part behind the last `/`, where there is one.
unfoldable pub after_last_slash : List ℕ → Option (List ℕ)
after_last_slash [] = none
after_last_slash (c ∷ cs) = elim (after_last_slash cs) [
  | some name ↦ some name
  | none ↦ if c == slash then some cs else none
]

-- `path.rsplit('/').next().unwrap_or(path)`. In UTF-8 the byte `/` is only ever the character.
unfoldable pub basename : List ℕ → List ℕ
unfolding after_last_slash
basename path = Option.get_or (after_last_slash path) path

-- `ProcessInfo::new`
unfoldable pub new_info : ProcessInfo
new_info = record { filename = replicate 16 0; arguments = replicate 80 0; pid = 0 }

unfoldable pub apply_module_name_fallback : ProcessInfo → List ℕ → ProcessInfo
apply_module_name_fallback info module_path =
    let bytes = basename module_path in
    let arguments =
      if eq_bytes info.arguments (replicate 80 0)
      then copy_front (min (length bytes) 79) info.arguments bytes
      else info.arguments in
    if not (eq_bytes info.filename (replicate 16 0)) then info else record info {
      filename = copy_front (min (length bytes) 15) info.filename bytes;
      arguments = arguments;
    }

-- `copy_truncated`, into the first `room` bytes of `destination`.
unfoldable pub copy_truncated : ℕ → List ℕ → List ℕ → List ℕ
unfolding copy_front
copy_truncated room destination source = copy_front (min room (length source)) destination source

abbrev pub ends_word : ℕ → Bool
ends_word byte = byte == 0 || byte == b' '

abbrev pub nul_to_space : ℕ → ℕ
nul_to_space byte = if byte == 0 then b' ' else byte

unfoldable pub apply_cmdline : ProcessInfo → List ℕ → ProcessInfo
apply_cmdline info cmdline = elim (position ends_word cmdline) [
  | none ↦ info
  | some end_of_binary ↦
      let binary_start : ℕ = elim (rposition (λ byte. byte == slash) (take end_of_binary cmdline)) [
        | none ↦ 0
        | some pos ↦ pos + 1
      ] in
      let binary_name = drop binary_start (take end_of_binary cmdline) in
      let arg_len = min (length cmdline) 79 in
      record info {
        filename = copy_truncated 15 (replicate 16 0) binary_name;
        arguments = map nul_to_space (take arg_len cmdline) ++ drop arg_len (replicate 80 0);
      }
]
