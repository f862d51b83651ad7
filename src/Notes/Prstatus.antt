-- ===== src/Notes/Prstatus.antt =====
-- The layout of the NT_PRSTATUS descriptor that src/notes.rs builds, against the offsets of
-- `struct elf_prstatus`.
use minidump2core.Prelude.{
  ℕ, ◌+◌, ◌*◌, ◌^◌, append_assoc, ◌%◌, ◌<◌, ◌≡◌, refl, ap, sym, ◌∙◌, List, ◌++◌, length, arith,
  length-append, length-replicate, Bool, if◌then◌else◌, replicate,
}
use minidump2core.Bytes.{le_bytes, from_le_bytes, from-le_bytes, slice, slice-append, resize, IsU32}
use minidump2core.Elf.Read.{read_le, read-le_append}
use minidump2core.Padding.{padding, padding_fills}
use minidump2core.Notes.Layout.{pad_to_lem}
use minidump2core.Notes.{pad_to, build_prstatus, pad, push_long, push_zeros, i16_or_max}
use minidump2core.Model.Architecture.{Architecture, x86, long_size, is_64bit}

-- `offsetof(struct elf_prstatus, pr_pid)` and `offsetof(struct elf_prstatus, pr_reg)`.
unfoldable pub pid_offset : Architecture → ℕ
pid_offset arch = if is_64bit arch then 32 else 24

unfoldable pub reg_offset : Architecture → ℕ
reg_offset arch = if is_64bit arch then 112 else 72

-- What a reader of the structure finds.
pub record IsPrstatus (arch : Architecture) (tid signal : ℕ) (pr_reg : List ℕ) (fp_valid : Bool)
    (desc : List ℕ) : Type 0 where
  pub signo : read_le 4 0 desc ≡ signal
  pub cursig : read_le 2 12 desc ≡ i16_or_max signal
  pub pid : read_le 4 (pid_offset arch) desc ≡ tid
  pub registers : slice (reg_offset arch) (length pr_reg) desc ≡ pr_reg
  pub fpvalid : read_le 4 (reg_offset arch + length pr_reg) desc ≡ (if fp_valid then 1 else 0)
  pub aligned : length desc % long_size arch ≡ 0

i16_or_max-lt : (v : ℕ) → i16_or_max v < 256 ^ 2
unfolding i16_or_max
i16_or_max-lt v = ground arith

flag-lt : (b : Bool) → (if b then 1 else 0) < 256 ^ 4
flag-lt b = ground arith

pad_lem : (out : List ℕ) (a : ℕ) → 0 < a → pad out a ≡ out ++ replicate (padding (length out) a) 0
unfolding pad pad_to
pad_lem out a h = pad_to_lem out a h

-- The part in front of the registers, field by field.
abbrev front : Architecture → ℕ → ℕ → List ℕ
front arch tid signal =
    le_bytes 4 signal
    ++ (replicate 8 0
        ++ (le_bytes 2 (i16_or_max signal)
            ++ (replicate (2 + 2 * long_size arch) 0
                ++ (le_bytes 4 tid ++ replicate (12 + 8 * long_size arch) 0))))

length-front :
    (arch : Architecture) (tid signal : ℕ) → length (front arch tid signal) ≡ reg_offset arch
unfolding reg_offset long_size le_bytes
length-front x86 tid signal = refl
length-front _ tid signal = refl

module _ (tid signal : ℕ) (pr_reg : List ℕ) (fp_valid : Bool) where
  abbrev desc : Architecture → List ℕ
  desc arch = build_prstatus arch tid signal pr_reg fp_valid

  abbrev flag : List ℕ
  flag = le_bytes 4 (if fp_valid then 1 else 0)

  padded_front :
      (arch : Architecture)
      → desc arch ≡ pad ((front arch tid signal ++ pr_reg) ++ flag) (long_size arch)
  unfolding build_prstatus push_long push_zeros long_size le_bytes resize pad
  padded_front x86 = refl
  padded_front _ = refl

  long_pos : (arch : Architecture) → 0 < long_size arch
  unfolding long_size
  long_pos arch = ground arith

  zeros_behind : Architecture → ℕ
  zeros_behind arch = padding (length ((front arch tid signal ++ pr_reg) ++ flag)) (long_size arch)

  parts :
      (arch : Architecture)
      → desc arch ≡ front arch tid signal ++ (pr_reg ++ (flag ++ replicate (zeros_behind arch) 0))
  unfolding zeros_behind
  parts arch =
      padded_front arch
      ∙ pad_lem ((front arch tid signal ++ pr_reg) ++ flag) (long_size arch) (long_pos arch)
      ∙ simp append_assoc

  desc_aligned : (arch : Architecture) → length (desc arch) % long_size arch ≡ 0
  desc_aligned arch =
      let body : List ℕ = (front arch tid signal ++ pr_reg) ++ flag in
      rw (padded_front arch, pad_lem body (long_size arch) (long_pos arch))
        (ap (λ k. k % long_size arch)
            (length-append body (replicate (padding (length body) (long_size arch)) 0)
              ∙ ap (λ k. length body + k)
                  (length-replicate (padding (length body) (long_size arch)) 0))
          ∙ padding_fills (length body) (long_size arch) (long_pos arch))

  front_fields :
      (arch : Architecture) (rest : List ℕ)
      → IsU32 signal
      → IsU32 tid
      → (read_le 4 0 (front arch tid signal ++ rest) ≡ signal)
        × (read_le 2 12 (front arch tid signal ++ rest) ≡ i16_or_max signal)
        × (read_le 4 (pid_offset arch) (front arch tid signal ++ rest) ≡ tid)
  unfolding pid_offset long_size le_bytes read_le from_le_bytes
  front_fields x86 rest hs ht = (
    from-le_bytes 4 signal hs,
    from-le_bytes 2 (i16_or_max signal) (i16_or_max-lt signal),
    from-le_bytes 4 tid ht,
  )
  front_fields _ rest hs ht = (
    from-le_bytes 4 signal hs,
    from-le_bytes 2 (i16_or_max signal) (i16_or_max-lt signal),
    from-le_bytes 4 tid ht,
  )

  -- For every target the descriptor has the signal, the thread id, the registers and the
  -- floating-point flag at the offsets of `struct elf_prstatus`, and its size is a multiple of the
  -- size of a `long`; the signal and the thread id fit 32 bits.
  pub build_prstatus-IsPrstatus :
      (arch : Architecture)
      → IsU32 signal
      → IsU32 tid
      → IsPrstatus arch tid signal pr_reg fp_valid (build_prstatus arch tid signal pr_reg fp_valid)
  build_prstatus-IsPrstatus arch hs ht =
      let tail : List ℕ = pr_reg ++ (flag ++ replicate (zeros_behind arch) 0) in
      let (signo, cursig, pid) = front_fields arch tail hs ht in
      rw (parts arch) (record {
        signo = signo;
        cursig = cursig;
        pid = pid;
        registers =
            slice-append (reg_offset arch) (length pr_reg) (front arch tid signal) pr_reg _
              (sym (length-front arch tid signal)) refl;
        fpvalid =
            ap (read_le 4 (reg_offset arch + length pr_reg))
              (sym (append_assoc (front arch tid signal) pr_reg _))
            ∙ read-le_append 4 _ (front arch tid signal ++ pr_reg) (if fp_valid then 1 else 0) _
                (omega (
                  arith,
                  length-append (front arch tid signal) pr_reg,
                  length-front arch tid signal,
                ))
                (flag-lt fp_valid);
        aligned = ap (λ t. length t % long_size arch) (sym (parts arch)) ∙ desc_aligned arch;
      })
