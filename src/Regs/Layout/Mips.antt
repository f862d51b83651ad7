-- ===== src/Regs/Layout/Mips.antt =====
-- `mips_gpregs` of src/regs.rs: the writes into the zeroed array leave the registers in their slots.
use minidump2core.Prelude.{
  ℕ, suc, ◌+◌, ◌*◌, ◌≡◌, refl, ap, sym, ◌∙◌, arith, List, [], ◌∷◌, ◌++◌, length, take,
  length-append, append_assoc, replicate, Bool, true, false,
}
use minidump2core.Bytes.{write_at, write_at-append, le_bytes, length-le_bytes}
use minidump2core.CpuContext.{ContextMips}
use minidump2core.Regs.{slot_size, put_slot, put_iregs, mips_gpregs}
use minidump2core.Regs.Layout.{flat, flat-append, length-flat}

-- A write of one word over the word at the same place.
write_slot :
    (n : ℕ) (front : List ℕ) (old v : ℕ) (back : List ℕ) (index : ℕ)
    → index ≡ length front
    → write_at (index * n) (le_bytes n v) (flat n (front ++ (old ∷ back)))
      ≡ flat n (front ++ (v ∷ back))
unfolding flat
write_slot n front old v back index h =
    rw (flat-append n front (old ∷ back), flat-append n front (v ∷ back))
      (write_at-append (index * n) (flat n front) (le_bytes n old) (le_bytes n v) (flat n back)
        (ap (λ k. k * n) h ∙ sym (length-flat n front))
        (length-le_bytes n v ∙ sym (length-le_bytes n old)))

low_half : (v : ℕ) → take 4 (le_bytes 8 v) ≡ le_bytes 4 v
unfolding le_bytes
low_half v = refl

put_slot-flat :
    (n64 : Bool) (front : List ℕ) (old v : ℕ) (back : List ℕ) (index : ℕ)
    → index ≡ length front
    → put_slot n64 (flat (slot_size n64) (front ++ (old ∷ back))) index v
      ≡ flat (slot_size n64) (front ++ (v ∷ back))
unfolding put_slot
put_slot-flat true front old v back index h = write_slot 8 front old v back index h
put_slot-flat false front old v back index h =
    rw (low_half v) (write_slot 4 front old v back index h)

-- The loop over the general registers writes them in a row.
put_iregs-flat :
    (n64 : Bool) (front olds rs back : List ℕ) (i : ℕ)
    → 6 + i ≡ length front
    → length olds ≡ length rs
    → put_iregs n64 (flat (slot_size n64) (front ++ (olds ++ back))) i rs
      ≡ flat (slot_size n64) (front ++ (rs ++ back))
unfolding put_iregs
put_iregs-flat n64 front [] [] back i h k = refl
put_iregs-flat n64 front [] (r ∷ rs) back i h k = absurd (omega arith)
put_iregs-flat n64 front (o ∷ olds) [] back i h k = absurd (omega arith)
put_iregs-flat n64 front (o ∷ olds) (r ∷ rs) back i h k =
    rw (put_slot-flat n64 front o r (olds ++ back) (6 + i) h) (
      ap (λ t. put_iregs n64 (flat (slot_size n64) t) (suc i) rs)
        (sym (append_assoc front (r ∷ []) (olds ++ back)))
      ∙ put_iregs-flat n64 (front ++ (r ∷ [])) olds rs back (suc i)
          (omega (arith, h, length-append front (r ∷ []))) (omega arith)
      ∙ ap (flat (slot_size n64)) (append_assoc front (r ∷ []) (rs ++ back)))

-- The 45 slots, in the kernel's order.
abbrev pub slots : ContextMips → List ℕ
slots c =
    replicate 6 0
    ++ (c.iregs ++ (c.mdlo ∷ c.mdhi ∷ c.epc ∷ c.badvaddr ∷ c.status ∷ c.cause ∷ 0 ∷ []))

zeros-flat : (n64 : Bool) → replicate (45 * slot_size n64) 0 ≡ flat (slot_size n64) (replicate 45 0)
unfolding flat le_bytes
zeros-flat true = refl
zeros-flat false = refl

-- A write behind a base and some slots that are set already.
put_behind :
    (n64 : Bool) (base filled : List ℕ) (v : ℕ) (back : List ℕ) (index : ℕ)
    → index ≡ length base + length filled
    → put_slot n64 (flat (slot_size n64) (base ++ (filled ++ (0 ∷ back)))) index v
      ≡ flat (slot_size n64) (base ++ (filled ++ (v ∷ back)))
put_behind n64 base filled v back index h =
    ap (λ t. put_slot n64 (flat (slot_size n64) t) index v)
      (sym (append_assoc base filled (0 ∷ back)))
    ∙ put_slot-flat n64 (base ++ filled) 0 v back index
        (omega (arith, h, length-append base filled))
    ∙ ap (flat (slot_size n64)) (append_assoc base filled (v ∷ back))

general-flat :
    (n64 : Bool) (iregs : List ℕ)
    → length iregs ≡ 32
    → put_iregs n64 (replicate (45 * slot_size n64) 0) 0 iregs
      ≡ flat (slot_size n64) ((replicate 6 0 ++ iregs) ++ replicate 7 0)
general-flat n64 iregs h =
    ap (λ t. put_iregs n64 t 0 iregs) (zeros-flat n64)
    ∙ put_iregs-flat n64 (replicate 6 0) (replicate 32 0) iregs (replicate 7 0) 0 (omega arith)
        (sym h)

-- `mips_gpregs` fills the zeroed array so that its 45 slots are six zeros, the 32 general
-- registers, `lo`, `hi`, the two addresses, the status, the cause and a zero.
pub mips_gpregs-flat :
    (c : ContextMips) (n64 : Bool)
    → length c.iregs ≡ 32
    → mips_gpregs c n64 ≡ flat (slot_size n64) (slots c)
unfolding mips_gpregs
mips_gpregs-flat c n64 h =
    let base : List ℕ = replicate 6 0 ++ c.iregs in
    let size : length base ≡ 38 = length-append (replicate 6 0) c.iregs ∙ omega (arith, h) in
    let put = put_behind n64 base in
    rw (
      general-flat n64 c.iregs h,
      put [] c.mdlo (replicate 6 0) 38 (omega (arith, size)),
      put (c.mdlo ∷ []) c.mdhi (replicate 5 0) 39 (omega (arith, size)),
      put (c.mdlo ∷ c.mdhi ∷ []) c.epc (replicate 4 0) 40 (omega (arith, size)),
      put (c.mdlo ∷ c.mdhi ∷ c.epc ∷ []) c.badvaddr (replicate 3 0) 41 (omega (arith, size)),
      put (c.mdlo ∷ c.mdhi ∷ c.epc ∷ c.badvaddr ∷ []) c.status (replicate 2 0) 42
          (omega (arith, size)),
      put (c.mdlo ∷ c.mdhi ∷ c.epc ∷ c.badvaddr ∷ c.status ∷ []) c.cause (replicate 1 0) 43
          (omega (arith, size)),
    )
