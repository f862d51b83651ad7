-- ===== src/Regs/Layout/Fxsave.antt =====
-- `amd64_fpregs` of src/regs.rs against the layout of an FXSAVE area.
use minidump2core.Prelude.{
  ℕ, ◌-◌, ◌^◌, ◌<◌, ◌≡◌, refl, ap, ◌∙◌, arith, some, List, [], ◌∷◌, ◌++◌, length, drop, replicate,
  All, length-append, length-replicate, append_assoc, drop-append,
}
use mathlib.Core.Path.{subst}
use minidump2core.Bytes.{
  le_bytes, from_le_bytes, from-le_bytes, resize, resize_grow, IsU16, IsU32, IsU64,
}
use minidump2core.CpuContext.{ContextAmd64, XmmSaveArea}
use minidump2core.Elf.Read.{read_le}
use minidump2core.Regs.{amd64_fpregs, x87_tag, push_values}
use minidump2core.Regs.Layout.{flat, read_array, push_values-flat, length-flat, read_array-flat}

-- The fields of the area, and the registers at their offsets.
pub record IsFxsave (x : XmmSaveArea) (area : List ℕ) : Type 0 where
  pub size : length area ≡ 512
  pub fcw : read_le 2 0 area ≡ x.control_word
  pub fsw : read_le 2 2 area ≡ x.status_word
  pub fop : read_le 2 6 area ≡ x.error_opcode
  pub fip : read_le 8 8 area ≡ x.error_offset
  pub fdp : read_le 8 16 area ≡ x.data_offset
  pub mxcsr : read_le 4 24 area ≡ x.mx_csr
  pub mxcsr_mask : read_le 4 28 area ≡ x.mx_csr_mask
  pub st : read_array 16 8 (drop 32 area) ≡ x.float_registers
  pub xmm : read_array 16 16 (drop 160 area) ≡ x.xmm_registers

-- The widths of the fields in the minidump crate's structure, and the sizes of its arrays.
pub record HasWidths (x : XmmSaveArea) : Type 0 where
  pub control : IsU16 x.control_word
  pub status : IsU16 x.status_word
  pub opcode : IsU16 x.error_opcode
  pub error : IsU64 x.error_offset
  pub bytes : IsU64 x.data_offset
  pub csr : IsU32 x.mx_csr
  pub mask : IsU32 x.mx_csr_mask
  pub floats : length x.float_registers ≡ 8
  pub xmms : length x.xmm_registers ≡ 16
  pub floats_fit : All (λ v. v < 256 ^ 16) x.float_registers
  pub xmms_fit : All (λ v. v < 256 ^ 16) x.xmm_registers

module _ (x : XmmSaveArea) (w : HasWidths x) where
  abbrev front : List ℕ
  front =
      flat 2 (x.control_word ∷ x.status_word ∷ x87_tag x ∷ x.error_opcode ∷ [])
      ++ (flat 8 (x.error_offset ∷ x.data_offset ∷ []) ++ flat 4 (x.mx_csr ∷ x.mx_csr_mask ∷ []))

  abbrev area : List ℕ
  area = front ++ (flat 16 x.float_registers ++ (flat 16 x.xmm_registers ++ replicate 96 0))

  length-area : length area ≡ 512
  unfolding flat le_bytes
  length-area = omega (
    arith,
    length-append (flat 16 x.float_registers) (flat 16 x.xmm_registers ++ replicate 96 0),
    length-append (flat 16 x.xmm_registers) (replicate 96 0),
    length-flat 16 x.float_registers,
    length-flat 16 x.xmm_registers,
    length-replicate {A = ℕ} 96 0,
    w.floats,
    w.xmms,
  )

  area-IsFxsave : IsFxsave x area
  unfolding flat le_bytes read_le from_le_bytes
  area-IsFxsave = record {
    size = length-area;
    fcw = from-le_bytes 2 x.control_word w.control;
    fsw = from-le_bytes 2 x.status_word w.status;
    fop = from-le_bytes 2 x.error_opcode w.opcode;
    fip = from-le_bytes 8 x.error_offset w.error;
    fdp = from-le_bytes 8 x.data_offset w.bytes;
    mxcsr = from-le_bytes 4 x.mx_csr w.csr;
    mxcsr_mask = from-le_bytes 4 x.mx_csr_mask w.mask;
    st =
        subst
          (λ n.
            read_array 16 n
              (flat 16 x.float_registers ++ (flat 16 x.xmm_registers ++ replicate 96 0))
            ≡ x.float_registers)
          w.floats
          (read_array-flat 16 x.float_registers (flat 16 x.xmm_registers ++ replicate 96 0)
            w.floats_fit);
    xmm =
        ap (read_array 16 16) (
          drop-append 128 (flat 16 x.float_registers) (flat 16 x.xmm_registers ++ replicate 96 0)
            (omega (arith, length-flat 16 x.float_registers, w.floats)))
        ∙ subst (λ n. read_array 16 n (flat 16 x.xmm_registers ++ replicate 96 0) ≡ x.xmm_registers)
            w.xmms (read_array-flat 16 x.xmm_registers (replicate 96 0) w.xmms_fit);
  }

  length-front : length front ≡ 32
  unfolding flat le_bytes
  length-front = refl

  -- What is pushed, before the area is filled up.
  abbrev pushed : List ℕ
  pushed =
      push_values 16
        (push_values 16
          (push_values 4
            (push_values 8
              (push_values 2 [] (x.control_word ∷ x.status_word ∷ x87_tag x ∷ x.error_opcode ∷ []))
              (x.error_offset ∷ x.data_offset ∷ []))
            (x.mx_csr ∷ x.mx_csr_mask ∷ []))
          x.float_registers)
        x.xmm_registers

  pushed_eq : pushed ≡ front ++ (flat 16 x.float_registers ++ flat 16 x.xmm_registers)
  pushed_eq =
      rw
        (
          push_values-flat 2 [] (x.control_word ∷ x.status_word ∷ x87_tag x ∷ x.error_opcode ∷ []),
          push_values-flat 8 _ (x.error_offset ∷ x.data_offset ∷ []),
          push_values-flat 4 _ (x.mx_csr ∷ x.mx_csr_mask ∷ []),
          push_values-flat 16 _ x.float_registers,
          push_values-flat 16 _ x.xmm_registers,
        )
        (simp append_assoc)

  length_all : length (front ++ (flat 16 x.float_registers ++ flat 16 x.xmm_registers)) ≡ 416
  length_all =
      let vectors : List ℕ = flat 16 x.float_registers ++ flat 16 x.xmm_registers in
      length-append front vectors
      ∙ omega (
        arith,
        length-front,
        length-append (flat 16 x.float_registers) (flat 16 x.xmm_registers),
        length-flat 16 x.float_registers,
        length-flat 16 x.xmm_registers,
        w.floats,
        w.xmms,
      )

  resized : resize pushed 512 ≡ area
  resized =
      let body : List ℕ = front ++ (flat 16 x.float_registers ++ flat 16 x.xmm_registers) in
      let missing : 512 - length body ≡ 96 = omega (arith, length_all) in
      ap (λ b. resize b 512) pushed_eq
      ∙ resize_grow body 512 (omega (arith, length_all))
      ∙ ap (λ k. body ++ replicate {A = ℕ} k 0) missing
      ∙ simp append_assoc

-- Where the area of a context is decoded and its fields have the widths and its arrays the sizes of
-- the minidump crate's structure, `amd64_fpregs` returns 512 bytes in which the control and status
-- words, the opcode, the two pointers, MXCSR with its mask, the eight x87 registers and the sixteen
-- XMM registers stand at the offsets of an FXSAVE area.
pub amd64_fpregs-IsFxsave :
    (c : ContextAmd64) (x : XmmSaveArea)
    → c.float_save ≡ some x
    → HasWidths x
    → (bytes : List ℕ) × (amd64_fpregs c ≡ some bytes) × IsFxsave x bytes
unfolding amd64_fpregs
amd64_fpregs-IsFxsave c x e w = (area x w, rw e (ap some (resized x w)), area-IsFxsave x w)
