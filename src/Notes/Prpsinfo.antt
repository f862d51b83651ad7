-- ===== src/Notes/Prpsinfo.antt =====
-- The layout of the NT_PRPSINFO descriptor that src/notes.rs builds, against the offsets of
-- `struct elf_prpsinfo`.
use minidump2core.Prelude.{
  ℕ, ◌+◌, ◌≡◌, ◌≢◌, refl, ap, sym, ◌∙◌, List, [], ◌++◌, length, arith, length-append, append-nil,
  take-append, drop-append, take, drop,
}
use minidump2core.Bytes.{le_bytes, from_le_bytes, from-le_bytes, slice, resize, IsU32}
use minidump2core.Elf.Read.{read_le}
use minidump2core.Notes.{build_prpsinfo, pad, push_long}
use minidump2core.Model.Architecture.{
  Architecture, x86, x86_64, arm, aarch64, mips, mips64, long_size, prpsinfo_uid_is_u32,
}
use minidump2core.Model.ProcessInfo.{ProcessInfo}

-- `offsetof(struct elf_prpsinfo, pr_pid)` for each target.
unfoldable pub pid_offset : Architecture → ℕ
pid_offset x86 = 12
pid_offset arm = 12
pid_offset mips = 16
pid_offset x86_64 = 24
pid_offset aarch64 = 24
pid_offset mips64 = 24

-- What a reader of the structure finds.
pub record IsPrpsinfo (arch : Architecture) (info : ProcessInfo) (desc : List ℕ) : Type 0 where
  pub size : length desc ≡ pid_offset arch + 112
  pub state : read_le 1 1 desc ≡ b'R'
  pub pid : read_le 4 (pid_offset arch) desc ≡ info.pid
  pub fname : slice (pid_offset arch + 16) 16 desc ≡ info.filename
  pub psargs : slice (pid_offset arch + 32) 80 desc ≡ info.arguments

-- Both fields behind the fixed part, as `slice` computes on it.
text_args : (f a : List ℕ) → length f ≡ 16 → length a ≡ 80 → take 80 (drop 16 (f ++ a)) ≡ a
text_args f a hf ha =
    ap (take 80) (drop-append 16 f a (sym hf))
    ∙ ap (take 80) (sym (append-nil a))
    ∙ take-append 80 a [] (sym ha)

module _ (info : ProcessInfo) (pid_fits : IsU32 info.pid) (hf : length info.filename ≡ 16)
    (ha : length info.arguments ≡ 80) where
  text_size : length (info.filename ++ info.arguments) ≡ 96
  text_size = omega (arith, length-append info.filename info.arguments)

  size_lem :
      (arch : Architecture)
      → arch ≢ aarch64
      → length (build_prpsinfo arch info) ≡ pid_offset arch + 112
  unfolding build_prpsinfo pid_offset pad push_long long_size prpsinfo_uid_is_u32 le_bytes resize
  size_lem x86 h = omega (arith, text_size)
  size_lem aarch64 h = absurd (h refl)
  size_lem _ h = omega (arith, text_size)

  state_lem : (arch : Architecture) → arch ≢ aarch64 → read_le 1 1 (build_prpsinfo arch info) ≡ b'R'
  unfolding build_prpsinfo pad push_long long_size prpsinfo_uid_is_u32 le_bytes resize read_le
      from_le_bytes
  state_lem x86 h = refl
  state_lem aarch64 h = absurd (h refl)
  state_lem _ h = refl

  pid_lem :
      (arch : Architecture)
      → arch ≢ aarch64
      → read_le 4 (pid_offset arch) (build_prpsinfo arch info) ≡ info.pid
  unfolding build_prpsinfo pid_offset pad push_long long_size prpsinfo_uid_is_u32 le_bytes resize
      read_le from_le_bytes
  pid_lem x86 h = from-le_bytes 4 info.pid pid_fits
  pid_lem aarch64 h = absurd (h refl)
  pid_lem _ h = from-le_bytes 4 info.pid pid_fits

  fname_lem :
      (arch : Architecture)
      → arch ≢ aarch64
      → slice (pid_offset arch + 16) 16 (build_prpsinfo arch info) ≡ info.filename
  unfolding build_prpsinfo pid_offset pad push_long long_size prpsinfo_uid_is_u32 le_bytes resize
  fname_lem x86 h = take-append 16 info.filename info.arguments (sym hf)
  fname_lem aarch64 h = absurd (h refl)
  fname_lem _ h = take-append 16 info.filename info.arguments (sym hf)

  psargs_lem :
      (arch : Architecture)
      → arch ≢ aarch64
      → slice (pid_offset arch + 32) 80 (build_prpsinfo arch info) ≡ info.arguments
  unfolding build_prpsinfo pid_offset pad push_long long_size prpsinfo_uid_is_u32 le_bytes resize
  psargs_lem x86 h = text_args info.filename info.arguments hf ha
  psargs_lem aarch64 h = absurd (h refl)
  psargs_lem _ h = text_args info.filename info.arguments hf ha

  -- For every target but aarch64 the descriptor has the size of `struct elf_prpsinfo`, and the state
  -- letter, the process id, the name and the arguments stand at that structure's offsets; the id fits
  -- 32 bits and the two text fields have their sizes.
  pub build_prpsinfo-IsPrpsinfo :
      (arch : Architecture) → arch ≢ aarch64 → IsPrpsinfo arch info (build_prpsinfo arch info)
  build_prpsinfo-IsPrpsinfo arch h = record {
    size = size_lem arch h;
    state = state_lem arch h;
    pid = pid_lem arch h;
    fname = fname_lem arch h;
    psargs = psargs_lem arch h;
  }
