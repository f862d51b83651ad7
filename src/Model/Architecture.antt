-- ===== src/Model/Architecture.antt =====
-- `Architecture` of src/model.rs and the constants that depend on it.
use minidump2core.Prelude.{ℕ, Bool, true, false, String, ◌==◌, if◌then◌else◌}

pub data Architecture : Type 0 where
  x86 x86_64 arm aarch64 mips mips64 : Architecture

unfoldable pub elf_class : Architecture → ℕ
elf_class x86 = 1
elf_class arm = 1
elf_class mips = 1
elf_class x86_64 = 2
elf_class aarch64 = 2
elf_class mips64 = 2

unfoldable pub elf_machine : Architecture → ℕ
elf_machine x86 = 3
elf_machine x86_64 = 62
elf_machine arm = 40
elf_machine aarch64 = 183
elf_machine mips = 8
elf_machine mips64 = 8

unfoldable pub is_64bit : Architecture → Bool
unfolding elf_class
is_64bit a = elf_class a == 2

unfoldable pub long_size : Architecture → ℕ
unfolding is_64bit
long_size a = if is_64bit a then 8 else 4

unfoldable pub prpsinfo_uid_is_u32 : Architecture → Bool
prpsinfo_uid_is_u32 x86_64 = true
prpsinfo_uid_is_u32 mips = true
prpsinfo_uid_is_u32 mips64 = true
prpsinfo_uid_is_u32 _ = false

unfoldable pub as_str : Architecture → String
as_str x86 = "x86"
as_str x86_64 = "x86_64"
as_str arm = "arm"
as_str aarch64 = "aarch64"
as_str mips = "mips"
as_str mips64 = "mips64"
