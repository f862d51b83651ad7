-- ===== src/Regs/UserRegs.antt =====
-- `to_pr_reg` of src/regs.rs against the register arrays of the kernel: `user_regs_struct` of i386
-- and x86_64, `user_regs` of arm, `user_pt_regs` of aarch64 and `elf_gregset_t` of MIPS o32. The array
-- of MIPS n64, which starts with r0 in slot 0, is not the one that the source builds.
use minidump2core.Prelude.{
  ℕ, ◌*◌, ◌%◌, ◌^◌, ◌<◌, ◌≡◌, refl, ap, sym, ◌∙◌, arith, false, append_assoc, List, [], ◌∷◌, ◌++◌,
  length, take, append-nil, All, map, Option, none, some,
}
use mathlib.Core.Path.{ap₂}
use mathlib.Core.Option.{some-injective}
use minidump2core.Error.{ok}
use minidump2core.Bytes.{le_bytes}
use minidump2core.Model.Architecture.{Architecture, x86, x86_64, arm, aarch64, mips, long_size}
use minidump2core.CpuContext.{
  RawContext, x86_context, amd64_context, arm_context, arm64_context, old_arm64_context,
  mips_context, ContextArm, ContextArm64,
}
use minidump2core.Regs.{
  to_pr_reg, push_values, x86_gpregs, amd64_gpregs, arm_gpregs, arm64_gpregs_new, arm64_gpregs_old,
}
use minidump2core.Regs.Layout.{
  flat, read_array, push_values-flat, flat-append, length-flat, read_array-flat,
}
use minidump2core.Regs.Layout.Mips.{slots, mips_gpregs-flat}

-- The low 32 bits of a 64-bit register.
abbrev pub low32 : ℕ → ℕ
low32 v = v % 2 ^ 32

-- The kernel's array for a target other than mips64, from a context of that target; `orig_eax` and
-- `orig_rax` are taken from the accumulator, and what a context does not hold is 0.
unfoldable pub user_regs : Architecture → RawContext → Option (List ℕ)
user_regs x86 (x86_context c) = some (
    c.ebx ∷ c.ecx ∷ c.edx ∷ c.esi ∷ c.edi ∷ c.ebp ∷ c.eax ∷ c.ds ∷ c.es ∷ c.fs ∷ c.gs ∷ c.eax
    ∷ c.eip ∷ c.cs ∷ c.eflags ∷ c.esp ∷ c.ss ∷ [])
user_regs x86_64 (amd64_context c) = some (
    c.r15 ∷ c.r14 ∷ c.r13 ∷ c.r12 ∷ c.rbp ∷ c.rbx ∷ c.r11 ∷ c.r10 ∷ c.r9 ∷ c.r8 ∷ c.rax ∷ c.rcx
    ∷ c.rdx ∷ c.rsi ∷ c.rdi ∷ c.rax ∷ c.rip ∷ c.cs ∷ c.eflags ∷ c.rsp ∷ c.ss ∷ 0 ∷ 0 ∷ c.ds ∷ c.es
    ∷ c.fs ∷ c.gs ∷ [])
user_regs arm (arm_context c) = some (take 16 c.iregs ++ (c.cpsr ∷ 0 ∷ []))
user_regs aarch64 (arm64_context c) = some (c.iregs ++ (c.sp ∷ c.pc ∷ c.cpsr ∷ []))
user_regs aarch64 (old_arm64_context c) = some (c.iregs ++ (c.sp ∷ c.pc ∷ c.cpsr ∷ []))
user_regs mips (mips_context c) = some (map low32 (slots c))
user_regs arch context = none

-- The sizes of the register arrays in the minidump crate's structures.
abbrev pub HasArrays : RawContext → Type 0
HasArrays (arm_context c) = length c.iregs ≡ 16
HasArrays (arm64_context c) = length c.iregs ≡ 31
HasArrays (old_arm64_context c) = length c.iregs ≡ 31
HasArrays (mips_context c) = length c.iregs ≡ 32
HasArrays _ = Unit {0}

-- The words of a reader of `bytes` are `regs`, and the result is these bytes.
abbrev IsSerialised : Architecture → RawContext → List ℕ → Type 0
IsSerialised arch context regs =
    (bytes : List ℕ) × (to_pr_reg arch context ≡ ok bytes)
    × (length bytes ≡ length regs * long_size arch)
    × (read_array (long_size arch) (length regs) bytes ≡ regs)

serialised :
    (arch : Architecture) (context : RawContext) (regs : List ℕ)
    → to_pr_reg arch context ≡ ok (flat (long_size arch) regs)
    → All (λ v. v < 256 ^ long_size arch) regs
    → IsSerialised arch context regs
serialised arch context regs e h = (
  flat (long_size arch) regs,
  e,
  length-flat (long_size arch) regs,
  ap (read_array (long_size arch) (length regs)) (sym (append-nil (flat (long_size arch) regs)))
      ∙ read_array-flat (long_size arch) regs [] h,
)

arm64-flat :
    (c : ContextArm64)
    → ((push_values 8 [] c.iregs ++ le_bytes 8 c.sp) ++ le_bytes 8 c.pc) ++ le_bytes 8 c.cpsr
      ≡ flat 8 (c.iregs ++ (c.sp ∷ c.pc ∷ c.cpsr ∷ []))
unfolding flat
arm64-flat c =
    rw (push_values-flat 8 [] c.iregs, flat-append 8 c.iregs (c.sp ∷ c.pc ∷ c.cpsr ∷ []))
      (simp (append_assoc, append-nil))

arm-flat : (c : ContextArm) → arm_gpregs c ≡ flat 4 (take 16 c.iregs ++ (c.cpsr ∷ 0 ∷ []))
unfolding arm_gpregs flat
arm-flat c =
    rw (push_values-flat 4 [] (take 16 c.iregs), flat-append 4 (take 16 c.iregs) (c.cpsr ∷ 0 ∷ []))
      (simp (append_assoc, append-nil))

low_word : (v : ℕ) → le_bytes 4 v ≡ le_bytes 4 (low32 v)
unfolding le_bytes
low_word v = ground arith

low_words : (vs : List ℕ) → flat 4 vs ≡ flat 4 (map low32 vs)
unfolding flat
low_words [] = refl
low_words (v ∷ vs) = ap₂ (λ a b. a ++ b) (low_word v) (low_words vs)

-- The words of the kernel's array, one after the other.
to_pr_reg-flat :
    (arch : Architecture) (context : RawContext) (regs : List ℕ)
    → HasArrays context
    → user_regs arch context ≡ some regs
    → to_pr_reg arch context ≡ ok (flat (long_size arch) regs)
unfolding user_regs to_pr_reg long_size x86_gpregs amd64_gpregs arm64_gpregs_new arm64_gpregs_old
to_pr_reg-flat x86 (x86_context c) regs h e =
    ap ok (push_values-flat 4 [] _ ∙ ap (flat 4) (some-injective _ _ e))
to_pr_reg-flat x86_64 (amd64_context c) regs h e =
    ap ok (push_values-flat 8 [] _ ∙ ap (flat 8) (some-injective _ _ e))
to_pr_reg-flat arm (arm_context c) regs h e =
    ap ok (arm-flat c ∙ ap (flat 4) (some-injective _ _ e))
to_pr_reg-flat aarch64 (arm64_context c) regs h e =
    ap ok (arm64-flat c ∙ ap (flat 8) (some-injective _ _ e))
to_pr_reg-flat aarch64 (old_arm64_context c) regs h e =
    ap ok (arm64-flat c ∙ ap (flat 8) (some-injective _ _ e))
to_pr_reg-flat mips (mips_context c) regs h e =
    ap ok (mips_gpregs-flat c false h ∙ low_words (slots c) ∙ ap (flat 4) (some-injective _ _ e))
to_pr_reg-flat _ _ regs h e = absurd (ground arith)

-- For a target other than mips64 and a context of it, `to_pr_reg` returns bytes in which a reader of
-- an array of `long` words finds the kernel's register array and nothing else. In the array
-- `orig_eax` and `orig_rax` are the accumulator, and a register that the context does not hold is 0.
-- The arrays of the context have the sizes of the minidump crate's structures, and the registers fit
-- a `long`.
pub to_pr_reg-user_regs :
    (arch : Architecture) (context : RawContext) (regs : List ℕ)
    → HasArrays context
    → user_regs arch context ≡ some regs
    → All (λ v. v < 256 ^ long_size arch) regs
    → (bytes : List ℕ) × (to_pr_reg arch context ≡ ok bytes)
      × (length bytes ≡ length regs * long_size arch)
      × (read_array (long_size arch) (length regs) bytes ≡ regs)
to_pr_reg-user_regs arch context regs h e fits =
    serialised arch context regs (to_pr_reg-flat arch context regs h e) fits
