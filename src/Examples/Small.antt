-- ===== src/Examples/Small.antt =====
-- The alignment functions of src/model.rs, the fixed buffers of its process info, the ELF headers of
-- src/elf.rs and the register arrays of src/regs.rs at small inputs.
use minidump2core.Prelude.{
  ℕ, ◌+◌, ◌*◌, ◌%◌, ◌^◌, ◌≤◌, ◌<◌, ◌≡◌, refl, arith, true, some, List, [], ◌∷◌, ◌++◌, length,
  replicate, ltb, if◌then◌else◌,
}
use minidump2core.Error.{ok, err, integer_overflow}
use minidump2core.Model.Align.{align_up}
use minidump2core.Model.Align.Least.{align_up_least}
use minidump2core.Model.ProcessInfo.{new_info, apply_cmdline, apply_module_name_fallback}
use minidump2core.Model.ProcessInfo.Terminated.{
  IsTerminated, new_info-IsTerminated, apply_cmdline-IsTerminated,
  apply_module_name_fallback-IsTerminated,
}
use minidump2core.Elf.{
  ElfHeader, ProgramHeader, write_elf_header, write_program_header, header_size, phdr_size,
}
use minidump2core.Elf.Header.{Reads, write_elf_header-Reads}
use minidump2core.Elf.Read.{
  Fits, WordsFit, read_phdr, write_program_header-read, write_program_header_fits,
}
use minidump2core.Writer.{vec_write}
use minidump2core.CpuContext.{ContextArm, ContextMips, arm_context}
use minidump2core.Regs.{to_pr_reg}
use minidump2core.Regs.UserRegs.{user_regs, to_pr_reg-user_regs}
use minidump2core.Regs.Layout.{read_array}
use minidump2core.CpuContext.{XmmSaveArea, ContextAmd64}
use minidump2core.Regs.{amd64_fpregs}
use minidump2core.Regs.Layout.Fxsave.{HasWidths, IsFxsave, amd64_fpregs-IsFxsave}
use minidump2core.Model.Architecture.{arm, long_size}

align_up_least_example :
    (r : ℕ) × (align_up 5000 4096
      ≡ (if ltb r (2 ^ 64) then ok r else err (integer_overflow "aligned value")))
    × (r % 4096 ≡ 0)
    × (5000 ≤ r)
    × (r < 5000 + 4096)
align_up_least_example = align_up_least 5000 4096 (omega arith) (omega arith)

abbrev two_bytes : List ℕ
two_bytes = 7 ∷ 8 ∷ []

-- `/bin/ls -l`
abbrev command_line : List ℕ
command_line = b'/' ∷ b'b' ∷ b'/' ∷ b'l' ∷ b's' ∷ 0 ∷ b'-' ∷ b'l' ∷ 0 ∷ []

apply_cmdline-IsTerminated_example : IsTerminated (apply_cmdline new_info command_line)
apply_cmdline-IsTerminated_example =
    apply_cmdline-IsTerminated new_info command_line new_info-IsTerminated

apply_module_name_fallback-IsTerminated_example :
    IsTerminated (apply_module_name_fallback new_info command_line)
apply_module_name_fallback-IsTerminated_example =
    apply_module_name_fallback-IsTerminated new_info command_line new_info-IsTerminated

abbrev header64 : ElfHeader
header64 = record { class = 2; machine = 62; phnum = 3 }

write_elf_header-Reads_example :
    (image : List ℕ) × (write_elf_header header64 [] ≡ ok ([] ++ image))
    × (length image ≡ header_size header64)
    × Reads true header64 (image ++ (1 ∷ []))
write_elf_header-Reads_example =
    write_elf_header-Reads header64 [] (1 ∷ []) (omega arith) (omega arith)

abbrev load32 : ProgramHeader
load32 = record {
  p_type = 1;
  p_flags = 4;
  p_offset = 4096;
  p_vaddr = 8192;
  p_paddr = 0;
  p_filesz = 16;
  p_memsz = 4096;
  p_align = 4096;
}

abbrev header32 : ElfHeader
header32 = record { class = 1; machine = 3; phnum = 1 }

load32-Fits : Fits 4 load32
load32-Fits = record {
  type_fits = omega arith;
  flags_fit = omega arith;
  offset_fits = omega arith;
  vaddr_fits = omega arith;
  paddr_fits = omega arith;
  filesz_fits = omega arith;
  memsz_fits = omega arith;
  align_fits = omega arith;
}

write_program_header-read_example :
    (image : List ℕ) × (write_program_header load32 1 [] ≡ ok ([] ++ image))
    × (length image ≡ phdr_size header32)
    × (read_phdr 1 (image ++ (9 ∷ [])) ≡ load32)
write_program_header-read_example =
    write_program_header-read load32 header32 [] (9 ∷ []) load32-Fits

write_program_header_fits_example : WordsFit load32
write_program_header_fits_example =
    write_program_header_fits load32 []
      (write_program_header-read load32 header32 [] [] load32-Fits).1

abbrev arm_registers : ContextArm
arm_registers = record {
  iregs = 0 ∷ 1 ∷ 2 ∷ 3 ∷ 4 ∷ 5 ∷ 6 ∷ 7 ∷ 8 ∷ 9 ∷ 10 ∷ 11 ∷ 12 ∷ 13 ∷ 14 ∷ 15 ∷ [];
  cpsr = 16;
}

abbrev arm_array : List ℕ
arm_array = 0 ∷ 1 ∷ 2 ∷ 3 ∷ 4 ∷ 5 ∷ 6 ∷ 7 ∷ 8 ∷ 9 ∷ 10 ∷ 11 ∷ 12 ∷ 13 ∷ 14 ∷ 15 ∷ 16 ∷ 0 ∷ []

arm_user_regs : user_regs arm (arm_context arm_registers) ≡ some arm_array
unfolding user_regs
arm_user_regs = refl

to_pr_reg-user_regs_example :
    (bytes : List ℕ) × (to_pr_reg arm (arm_context arm_registers) ≡ ok bytes)
    × (length bytes ≡ length arm_array * long_size arm)
    × (read_array (long_size arm) (length arm_array) bytes ≡ arm_array)
unfolding long_size
to_pr_reg-user_regs_example =
    to_pr_reg-user_regs arm (arm_context arm_registers) arm_array refl arm_user_regs (ground arith)

abbrev mips_registers : ContextMips
mips_registers = record {
  iregs = replicate 32 7;
  mdlo = 1;
  mdhi = 2;
  epc = 3;
  badvaddr = 4;
  status = 5;
  cause = 6;
}

abbrev xmm_area : XmmSaveArea
xmm_area = record {
  control_word = 895;
  status_word = 1;
  tag_word = 255;
  reserved1 = 0;
  error_opcode = 2;
  error_offset = 4198400;
  data_offset = 6295552;
  mx_csr = 8064;
  mx_csr_mask = 65535;
  float_registers = replicate 8 3;
  xmm_registers = replicate 16 4;
}

abbrev amd64_registers : ContextAmd64
amd64_registers = record {
  r15 = 15;
  r14 = 14;
  r13 = 13;
  r12 = 12;
  rbp = 0;
  rbx = 0;
  r11 = 11;
  r10 = 10;
  r9 = 9;
  r8 = 8;
  rax = 0;
  rcx = 0;
  rdx = 0;
  rsi = 0;
  rdi = 0;
  rip = 4198400;
  cs = 51;
  eflags = 0;
  rsp = 0;
  ss = 43;
  ds = 0;
  es = 0;
  fs = 0;
  gs = 0;
  float_save = some xmm_area;
}

xmm_area-HasWidths : HasWidths xmm_area
xmm_area-HasWidths = record {
  control = omega arith;
  status = omega arith;
  opcode = omega arith;
  error = omega arith;
  bytes = omega arith;
  csr = omega arith;
  mask = omega arith;
  floats = refl;
  xmms = refl;
  floats_fit = ground arith;
  xmms_fit = ground arith;
}

amd64_fpregs-IsFxsave_example :
    (bytes : List ℕ) × (amd64_fpregs amd64_registers ≡ some bytes) × IsFxsave xmm_area bytes
amd64_fpregs-IsFxsave_example =
    amd64_fpregs-IsFxsave amd64_registers xmm_area refl xmm_area-HasWidths
