-- ===== src/Model/ProcessInfo/Terminated.antt =====
-- `pr_fname` and `pr_psargs` of src/model.rs stay C strings of their fixed sizes.
use minidump2core.Prelude.{
  ℕ, zero, suc, ◌-◌, ◌≤◌, ◌<◌, ◌≡◌, refl, ap, ◌∙◌, Bool-cases, inl, inr, some, Option-cases, List,
  [], ◌∷◌, ◌++◌, length, take, drop, replicate, map, get_elem?, min, arith, length-append,
  length-take, length-drop, length-replicate,
}
use minidump2core.Bytes.{copy_front, eq_bytes, position}
use minidump2core.Model.ProcessInfo.{
  ProcessInfo, basename, new_info, apply_module_name_fallback, copy_truncated, apply_cmdline,
  ends_word, nul_to_space,
}

-- A buffer of `size` bytes whose last byte is NUL.
pub record IsCString (size : ℕ) (buffer : List ℕ) : Type 0 where
  pub sized : length buffer ≡ size
  pub terminated : get_elem? buffer (size - 1) ≡ some 0

pub record IsTerminated (info : ProcessInfo) : Type 0 where
  pub filename : IsCString 16 info.filename
  pub arguments : IsCString 80 info.arguments

-- Behind a front of `n` elements the buffer is seen.
get_elem?-behind :
    (front : List ℕ) (n i : ℕ) (buffer : List ℕ)
    → length front ≡ n
    → n ≤ i
    → n ≤ length buffer
    → get_elem? (front ++ drop n buffer) i ≡ get_elem? buffer i
get_elem?-behind [] zero i buffer h k l = refl
get_elem?-behind [] (suc n) i buffer h k l = absurd (omega arith)
get_elem?-behind (b ∷ front) zero i buffer h k l = absurd (omega arith)
get_elem?-behind (b ∷ front) (suc n) zero buffer h k l = absurd (omega arith)
get_elem?-behind (b ∷ front) (suc n) (suc i) [] h k l = absurd (omega arith)
get_elem?-behind (b ∷ front) (suc n) (suc i) (c ∷ buffer) h k l =
    get_elem?-behind front n i buffer (omega arith) (omega arith) (omega arith)

-- Fewer bytes than the buffer has, put over its front, leave the last byte.
filled-IsCString :
    (size n : ℕ) (front buffer : List ℕ)
    → length front ≡ n
    → n < size
    → IsCString size buffer
    → IsCString size (front ++ drop n buffer)
filled-IsCString size n front buffer h k c = record {
  sized = length-append front (drop n buffer) ∙ omega (arith, c.sized, length-drop n buffer);
  terminated =
      get_elem?-behind front n (size - 1) buffer h (omega arith) (omega (arith, c.sized))
      ∙ c.terminated;
}

copy_front-IsCString :
    (size n : ℕ) (buffer source : List ℕ)
    → n ≤ length source
    → n < size
    → IsCString size buffer
    → IsCString size (copy_front n buffer source)
unfolding copy_front
copy_front-IsCString size n buffer source h k c =
    filled-IsCString size n (take n source) buffer (length-take n source ∙ omega (arith, min_of)) k
      c
  where
    min_of : min n (length source) ≡ n
    min_of = omega arith

zeros-IsCString : (size : ℕ) → 0 < size → IsCString size (replicate size 0)
zeros-IsCString zero h = absurd (omega arith)
zeros-IsCString (suc n) h = record {
  sized = length-replicate (suc n) 0;
  terminated = ap (get_elem? (replicate {A = ℕ} (suc n) 0)) before_last ∙ last_zero n;
}
  where
    before_last : suc n - 1 ≡ n
    before_last = omega arith

    last_zero : (k : ℕ) → get_elem? (replicate {A = ℕ} (suc k) 0) k ≡ some 0
    last_zero zero = refl
    last_zero (suc k) = last_zero k

length-map : (f : ℕ → ℕ) (bs : List ℕ) → length (map f bs) ≡ length bs
length-map f [] = refl
length-map f (b ∷ bs) = ap suc (length-map f bs)

min-le : (a b : ℕ) → (min a b ≤ a) × (min a b ≤ b)
min-le a b = (omega arith, omega arith)

-- The buffers of a new process are terminated.
pub new_info-IsTerminated : IsTerminated new_info
unfolding new_info
new_info-IsTerminated = record {
  filename = zeros-IsCString 16 (omega arith);
  arguments = zeros-IsCString 80 (omega arith);
}

truncated-IsCString : (source : List ℕ) → IsCString 16 (copy_truncated 15 (replicate 16 0) source)
unfolding copy_truncated
truncated-IsCString source =
    copy_front-IsCString 16 (min 15 (length source)) (replicate 16 0) source (omega arith)
      (omega arith) (zeros-IsCString 16 (omega arith))

-- A command line of any content and length leaves `pr_fname` of 16 bytes and `pr_psargs` of 80 bytes,
-- each with a NUL in its last byte.
pub apply_cmdline-IsTerminated :
    (info : ProcessInfo) (cmdline : List ℕ)
    → IsTerminated info
    → IsTerminated (apply_cmdline info cmdline)
unfolding apply_cmdline
apply_cmdline-IsTerminated info cmdline t = elim (Option-cases (position ends_word cmdline)) [
  | inl unended ↦ rw (unended, apply_cmdline) t
  | inr (end, ended) ↦
      rw (ended, apply_cmdline)
        (record {
          filename = truncated-IsCString _;
          arguments =
              filled-IsCString 80 (min (length cmdline) 79) _ (replicate 80 0)
                (length-map nul_to_space (take (min (length cmdline) 79) cmdline)
                  ∙ length-take (min (length cmdline) 79) cmdline
                  ∙ omega arith)
                (omega arith) (zeros-IsCString 80 (omega arith));
        })
]

-- The path of a module of any content and length, where it fills the two buffers, leaves `pr_fname` of
-- 16 bytes and `pr_psargs` of 80 bytes, each with a NUL in its last byte.
pub apply_module_name_fallback-IsTerminated :
    (info : ProcessInfo) (module_path : List ℕ)
    → IsTerminated info
    → IsTerminated (apply_module_name_fallback info module_path)
unfolding apply_module_name_fallback
apply_module_name_fallback-IsTerminated info module_path t =
    elim (Bool-cases (eq_bytes info.filename (replicate 16 0))) [
      | inr named ↦ rw named t
      | inl unnamed ↦ rw unnamed (record {
        filename =
            copy_front-IsCString 16 _ info.filename (basename module_path) (omega arith)
              (omega arith) t.filename;
        arguments = elim (Bool-cases (eq_bytes info.arguments (replicate 80 0))) [
          | inl empty ↦ rw empty (
              copy_front-IsCString 80 _ info.arguments (basename module_path) (omega arith)
                (omega arith) t.arguments)
          | inr set ↦ rw set t.arguments
        ];
      })
    ]
