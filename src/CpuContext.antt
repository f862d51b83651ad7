-- ===== src/CpuContext.antt =====
-- The CPU contexts of the minidump crate, as far as src/regs.rs reads them: a structure is a record of
-- the fields that are read, and an array is a list.
use minidump2core.Prelude.{ℕ, Option, List}

-- `CONTEXT_X86`, and its `float_save`.
pub record FloatSave : Type 0 where
  pub control_word : ℕ
  pub status_word : ℕ
  pub tag_word : ℕ
  pub error_offset : ℕ
  pub error_selector : ℕ
  pub data_offset : ℕ
  pub data_selector : ℕ
  pub register_area : List ℕ

pub record ContextX86 : Type 0 where
  pub ebx : ℕ
  pub ecx : ℕ
  pub edx : ℕ
  pub esi : ℕ
  pub edi : ℕ
  pub ebp : ℕ
  pub eax : ℕ
  pub ds : ℕ
  pub es : ℕ
  pub fs : ℕ
  pub gs : ℕ
  pub eip : ℕ
  pub cs : ℕ
  pub eflags : ℕ
  pub esp : ℕ
  pub ss : ℕ
  pub float_save : FloatSave
  pub extended_registers : List ℕ

-- `XMM_SAVE_AREA32`
pub record XmmSaveArea : Type 0 where
  pub control_word : ℕ
  pub status_word : ℕ
  pub tag_word : ℕ
  pub reserved1 : ℕ
  pub error_opcode : ℕ
  pub error_offset : ℕ
  pub data_offset : ℕ
  pub mx_csr : ℕ
  pub mx_csr_mask : ℕ
  pub float_registers : List ℕ
  pub xmm_registers : List ℕ

-- `CONTEXT_AMD64`. `float_save` is what `pread_with` of the scroll crate returns on its bytes.
pub record ContextAmd64 : Type 0 where
  pub r15 : ℕ
  pub r14 : ℕ
  pub r13 : ℕ
  pub r12 : ℕ
  pub rbp : ℕ
  pub rbx : ℕ
  pub r11 : ℕ
  pub r10 : ℕ
  pub r9 : ℕ
  pub r8 : ℕ
  pub rax : ℕ
  pub rcx : ℕ
  pub rdx : ℕ
  pub rsi : ℕ
  pub rdi : ℕ
  pub rip : ℕ
  pub cs : ℕ
  pub eflags : ℕ
  pub rsp : ℕ
  pub ss : ℕ
  pub ds : ℕ
  pub es : ℕ
  pub fs : ℕ
  pub gs : ℕ
  pub float_save : Option XmmSaveArea

-- `CONTEXT_ARM`; `CONTEXT_ARM64` and `CONTEXT_ARM64_OLD`; `CONTEXT_MIPS`.
pub record ContextArm : Type 0 where
  pub iregs : List ℕ
  pub cpsr : ℕ

pub record ContextArm64 : Type 0 where
  pub iregs : List ℕ
  pub sp : ℕ
  pub pc : ℕ
  pub cpsr : ℕ

pub record ContextMips : Type 0 where
  pub iregs : List ℕ
  pub mdlo : ℕ
  pub mdhi : ℕ
  pub epc : ℕ
  pub badvaddr : ℕ
  pub status : ℕ
  pub cause : ℕ

-- `MinidumpRawContext`: nothing is read of the last three.
pub data RawContext : Type 0 where
  x86_context : ContextX86 → RawContext
  amd64_context : ContextAmd64 → RawContext
  arm_context : ContextArm → RawContext
  arm64_context : ContextArm64 → RawContext
  old_arm64_context : ContextArm64 → RawContext
  mips_context : ContextMips → RawContext
  ppc_context ppc64_context sparc_context : RawContext
