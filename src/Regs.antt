-- ===== src/Regs.antt =====
-- src/regs.rs: the register bytes of NT_PRSTATUS, NT_FPREGSET and NT_PRXFPREG. The CPU contexts
-- are those of `CpuContext`.
pub mod Layout
pub mod UserRegs
use minidump2core.Prelude.{
  ℕ, zero, suc, ◌+◌, ◌*◌, ◌%◌, ◌^◌, Bool, true, false, Option, none, some, List, [], ◌∷◌, ◌++◌,
  String, length, take, drop, replicate, ltb, if◌then◌else◌,
}
use minidump2core.Error.{Result, ok, err, context_mismatch}
use minidump2core.CpuContext.{
  ContextAmd64, ContextArm, ContextArm64, ContextMips, ContextX86, FloatSave, RawContext,
  XmmSaveArea, amd64_context, arm64_context, arm_context, mips_context, old_arm64_context,
  ppc64_context, ppc_context, sparc_context, x86_context,
}
use minidump2core.Bytes.{le_bytes, from_le_bytes, slice, resize, write_at}
use minidump2core.Elf.{u16_or_zero}
use minidump2core.Model.Architecture.{Architecture, x86, x86_64, arm, aarch64, mips, mips64, as_str}
use Prim.Native.Nat.{bit_or}
use mathlib.Core.Option

-- `for value in values { out.extend_from_slice(&value.to_le_bytes()) }`
unfoldable pub push_values : ℕ → List ℕ → List ℕ → List ℕ
push_values n out [] = out
push_values n out (v ∷ vs) = push_values n (out ++ le_bytes n v) vs

unfoldable pub x86_gpregs : ContextX86 → List ℕ
x86_gpregs c = push_values 4 [] (
    c.ebx ∷ c.ecx ∷ c.edx ∷ c.esi ∷ c.edi ∷ c.ebp ∷ c.eax ∷ c.ds ∷ c.es ∷ c.fs ∷ c.gs ∷ c.eax
    ∷ c.eip ∷ c.cs ∷ c.eflags ∷ c.esp ∷ c.ss ∷ [])

unfoldable pub x86_fpregs : ContextX86 → List ℕ
x86_fpregs c =
    let f = c.float_save in
    push_values 4 [] (
      f.control_word ∷ f.status_word ∷ f.tag_word ∷ f.error_offset ∷ f.error_selector
      ∷ f.data_offset ∷ f.data_selector ∷ [])
    ++ f.register_area

unfoldable pub u16_le : List ℕ → ℕ → ℕ
u16_le buf offset = from_le_bytes (slice offset 2 buf)

unfoldable pub u32_le : List ℕ → ℕ → ℕ
u32_le buf offset = from_le_bytes (slice offset 4 buf)

unfoldable pub x86_fpxregs : ContextX86 → List ℕ
unfolding u16_le u32_le
x86_fpxregs c =
    let f = c.float_save in
    let ext = c.extended_registers in
    let words = push_values 2 [] (
      u16_or_zero f.control_word
      ∷ u16_or_zero f.status_word
      ∷ u16_or_zero f.tag_word
      ∷ u16_le ext 6
      ∷ []) in
    let longs =
      push_values 4 words
        (u16_le ext 8 ∷ u16_le ext 12 ∷ u16_le ext 16 ∷ u16_le ext 20 ∷ u32_le ext 24 ∷ 0 ∷ []) in
    resize ((longs ++ slice 32 128 ext) ++ slice 160 128 ext) 512

unfoldable pub amd64_gpregs : ContextAmd64 → List ℕ
amd64_gpregs c = push_values 8 [] (
    c.r15 ∷ c.r14 ∷ c.r13 ∷ c.r12 ∷ c.rbp ∷ c.rbx ∷ c.r11 ∷ c.r10 ∷ c.r9 ∷ c.r8 ∷ c.rax ∷ c.rcx
    ∷ c.rdx ∷ c.rsi ∷ c.rdi ∷ c.rax ∷ c.rip ∷ c.cs ∷ c.eflags ∷ c.rsp ∷ c.ss ∷ 0 ∷ 0 ∷ c.ds ∷ c.es
    ∷ c.fs ∷ c.gs ∷ [])

-- `u16::from(tag_word) | (u16::from(reserved1) << 8)`
abbrev pub x87_tag : XmmSaveArea → ℕ
x87_tag x = bit_or x.tag_word (x.reserved1 * 256 % 2 ^ 16)

unfoldable pub amd64_fpregs : ContextAmd64 → Option (List ℕ)
amd64_fpregs c = elim (c.float_save) [
  | none ↦ none
  | some x ↦
      let words =
        push_values 2 [] (x.control_word ∷ x.status_word ∷ x87_tag x ∷ x.error_opcode ∷ []) in
      let pointers = push_values 8 words (x.error_offset ∷ x.data_offset ∷ []) in
      let masks = push_values 4 pointers (x.mx_csr ∷ x.mx_csr_mask ∷ []) in
      some (resize (push_values 16 (push_values 16 masks x.float_registers) x.xmm_registers) 512)
]

unfoldable pub arm_gpregs : ContextArm → List ℕ
arm_gpregs c = (push_values 4 [] (take 16 c.iregs) ++ le_bytes 4 c.cpsr) ++ le_bytes 4 0

unfoldable pub arm64_gpregs_new : ContextArm64 → List ℕ
arm64_gpregs_new c =
    ((push_values 8 [] c.iregs ++ le_bytes 8 c.sp) ++ le_bytes 8 c.pc) ++ le_bytes 8 c.cpsr

unfoldable pub arm64_gpregs_old : ContextArm64 → List ℕ
arm64_gpregs_old c =
    ((push_values 8 [] c.iregs ++ le_bytes 8 c.sp) ++ le_bytes 8 c.pc) ++ le_bytes 8 c.cpsr

abbrev pub slot_size : Bool → ℕ
slot_size n64 = if n64 then 8 else 4

-- The closure `put` of `mips_gpregs`.
unfoldable pub put_slot : Bool → List ℕ → ℕ → ℕ → List ℕ
unfolding write_at
put_slot n64 out index value =
    let off = index * slot_size n64 in
    if n64
    then write_at off (le_bytes 8 value) out
    else write_at off (take 4 (le_bytes 8 value)) out

-- `for (i, r) in iregs.iter().enumerate() { put(6 + i, *r) }`, from index `i` on.
unfoldable pub put_iregs : Bool → List ℕ → ℕ → List ℕ → List ℕ
put_iregs n64 out i [] = out
put_iregs n64 out i (r ∷ rs) = put_iregs n64 (put_slot n64 out (6 + i) r) (suc i) rs

unfoldable pub mips_gpregs : ContextMips → Bool → List ℕ
mips_gpregs c n64 =
    let zeros = replicate (45 * slot_size n64) 0 in
    let general = put_iregs n64 zeros 0 c.iregs in
    let lo = put_slot n64 general 38 c.mdlo in
    let hi = put_slot n64 lo 39 c.mdhi in
    let epc = put_slot n64 hi 40 c.epc in
    let badvaddr = put_slot n64 epc 41 c.badvaddr in
    let status = put_slot n64 badvaddr 42 c.status in put_slot n64 status 43 c.cause

unfoldable pub context_arch_name : RawContext → String
context_arch_name (x86_context c) = "x86"
context_arch_name (amd64_context c) = "x86_64"
context_arch_name (arm_context c) = "arm"
context_arch_name (arm64_context c) = "aarch64"
context_arch_name (old_arm64_context c) = "aarch64"
context_arch_name (mips_context c) = "mips"
context_arch_name ppc_context = "ppc"
context_arch_name ppc64_context = "ppc64"
context_arch_name sparc_context = "sparc"

unfoldable pub to_pr_reg : Architecture → RawContext → Result (List ℕ)
to_pr_reg x86 (x86_context c) = ok (x86_gpregs c)
to_pr_reg x86_64 (amd64_context c) = ok (amd64_gpregs c)
to_pr_reg arm (arm_context c) = ok (arm_gpregs c)
to_pr_reg aarch64 (arm64_context c) = ok (arm64_gpregs_new c)
to_pr_reg aarch64 (old_arm64_context c) = ok (arm64_gpregs_old c)
to_pr_reg mips (mips_context c) = ok (mips_gpregs c false)
to_pr_reg mips64 (mips_context c) = ok (mips_gpregs c true)
to_pr_reg arch context = err (context_mismatch (as_str arch) (context_arch_name context))

unfoldable pub to_fpregset : Architecture → RawContext → Option (List ℕ)
to_fpregset x86 (x86_context c) = some (x86_fpregs c)
to_fpregset x86_64 (amd64_context c) = amd64_fpregs c
to_fpregset arch context = none

unfoldable pub to_prxfpreg : Architecture → RawContext → Option (List ℕ)
to_prxfpreg x86 (x86_context c) = some (x86_fpxregs c)
to_prxfpreg arch context = none
