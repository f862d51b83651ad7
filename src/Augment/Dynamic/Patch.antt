-- ===== src/Augment/Dynamic/Patch.antt =====
-- `patch_dt_debug` of src/augment.rs on the bytes of a list of tags and values.
use minidump2core.Prelude.{
  ℕ, zero, suc, ◌+◌, ◌/◌, ◌^◌, ◌<◌, ◌≤◌, ◌≡◌, refl, ap, sym, ◌∙◌, true, Bool-cases, inl, inr, List,
  [], ◌∷◌, ◌++◌, length, leb, ◌==◌, if◌then◌else◌, arith, append_assoc, length-append,
}
use mathlib.Core.Path.{ap₂}
use minidump2core.Error.{ok}
use minidump2core.Bytes.{le_bytes, length-le_bytes, slice, slice-append, write_at, write_at-append}
use minidump2core.Model.Architecture.{Architecture, long_size}
use minidump2core.Augment.Dynamic.{dt_null, dt_debug, entry_size, patch_from, patch_dt_debug}
use minidump2core.Augment.Dynamic.Entries.{
  DynEntry, dyn_bytes, patched, TagsFit, le→leb, lt→leb_false, entry_half, entry_words, word_pos,
  read_tag, write_word-le_bytes,
}

module _ (arch : Architecture) (addr : ℕ) where
  -- The bytes of an entry.
  abbrev pair : ℕ → ℕ → List ℕ
  pair tag value = le_bytes (long_size arch) tag ++ le_bytes (long_size arch) value

  length-pair : (tag value : ℕ) → length (pair tag value) ≡ entry_size arch
  length-pair tag value =
      length-append (le_bytes (long_size arch) tag) (le_bytes (long_size arch) value)
      ∙ omega (
        arith,
        length-le_bytes (long_size arch) tag,
        length-le_bytes (long_size arch) value,
        entry_words arch,
      )

  module _ (front : List ℕ) (tag value : ℕ) (rest : List ℕ) where
    abbrev data_of : ℕ → List ℕ
    data_of v = front ++ (pair tag v ++ rest)

    in_range : leb (length front + entry_size arch) (length (data_of value)) ≡ true
    in_range = le→leb _ _ (
        omega (
          arith,
          length-append front (pair tag value ++ rest),
          length-append (pair tag value) rest,
          length-pair tag value,
        ))

    entry_slice : slice (length front) (entry_size arch) (data_of value) ≡ pair tag value
    entry_slice =
        slice-append (length front) (entry_size arch) front (pair tag value) rest refl
          (sym (length-pair tag value))

    regroup :
        (v : ℕ)
        → data_of v
          ≡ (front ++ le_bytes (long_size arch) tag) ++ (le_bytes (long_size arch) v ++ rest)
    regroup v = simp append_assoc

    value_at : length front + entry_size arch / 2 ≡ length (front ++ le_bytes (long_size arch) tag)
    value_at = sym (
        length-append front (le_bytes (long_size arch) tag)
        ∙ omega (arith, length-le_bytes (long_size arch) tag, entry_half arch))

    value_slice :
        slice (length front + entry_size arch / 2) (entry_size arch / 2) (data_of value)
        ≡ le_bytes (long_size arch) value
    value_slice =
        ap (slice (length front + entry_size arch / 2) (entry_size arch / 2)) (regroup value)
        ∙ slice-append _ _ (front ++ le_bytes (long_size arch) tag)
            (le_bytes (long_size arch) value) rest value_at
            (entry_half arch ∙ sym (length-le_bytes (long_size arch) value))

    value_written :
        write_at
          (length front + entry_size arch / 2)
          (le_bytes (long_size arch) addr)
          (data_of value)
        ≡ data_of addr
    value_written =
        ap (write_at (length front + entry_size arch / 2) (le_bytes (long_size arch) addr))
          (regroup value)
        ∙ write_at-append _ (front ++ le_bytes (long_size arch) tag)
            (le_bytes (long_size arch) value) (le_bytes (long_size arch) addr) rest value_at
            (length-le_bytes (long_size arch) addr ∙ sym (length-le_bytes (long_size arch) value))
        ∙ sym (regroup addr)

    patch_step :
        (fuel : ℕ)
        → addr < 2 ^ 32
        → tag < 256 ^ long_size arch
        → patch_from (suc fuel) arch (length front) (data_of value) addr ≡ (
            if tag == dt_debug
            then ok (data_of addr)
            else (if tag == dt_null
                then ok (data_of value)
                else patch_from fuel arch (length front + entry_size arch) (data_of value) addr))
    unfolding patch_from
    patch_step fuel h k =
        rw
          (
            in_range,
            entry_slice,
            read_tag arch tag value k,
            value_slice,
            write_word-le_bytes arch value addr h,
            value_written,
          )
          refl

  -- The loop from an entry on.
  patch_entries :
      (fuel : ℕ) (front : List ℕ) (es : List DynEntry) (tail : List ℕ)
      → addr < 2 ^ 32
      → TagsFit (long_size arch) es
      → length tail < entry_size arch
      → length es ≤ fuel
      → patch_from fuel arch (length front) (front ++ (dyn_bytes (long_size arch) es ++ tail)) addr
        ≡ ok (front ++ (dyn_bytes (long_size arch) (patched addr es) ++ tail))
  unfolding patch_from
  patch_entries zero front [] tail h t s f = refl
  patch_entries (suc fuel) front [] tail h t s f =
      rw
        (lt→leb_false (length (front ++ tail)) (length front + entry_size arch)
          (omega (arith, length-append front tail)))
        refl
  patch_entries zero front (e ∷ es) tail h t s f = absurd (omega arith)
  patch_entries (suc fuel) front ((tag, value) ∷ es) tail h t s f =
      let word = long_size arch in
      let rest : List ℕ = dyn_bytes word es ++ tail in
      let next : List ℕ = front ++ pair tag value in
      let at : length front + entry_size arch ≡ length next = sym (
        length-append front (pair tag value)
        ∙ ap (λ k. length front + k) (length-pair tag value)) in
      let later : patch_from fuel arch (length front + entry_size arch)
            (front ++ (pair tag value ++ rest)) addr
          ≡ ok (front ++ (pair tag value ++ (dyn_bytes word (patched addr es) ++ tail))) =
        ap₂ (λ o d. patch_from fuel arch o d addr) at
          (sym (append_assoc front (pair tag value) rest))
        ∙ patch_entries fuel next es tail h t.1 s (omega arith)
        ∙ ap ok (append_assoc front (pair tag value) _) in
      rw
        (
          append_assoc (pair tag value) (dyn_bytes word es) tail,
          patch_step front tag value rest fuel h t.0,
        )
        (elim (Bool-cases (tag == dt_debug)) [
          | inl debug ↦ rw debug (
              ap (λ d. ok (front ++ d))
                (sym (append_assoc (pair tag addr) (dyn_bytes word es) tail)))
          | inr other ↦ rw other (elim (Bool-cases (tag == dt_null)) [
            | inl last ↦ rw last (
                ap (λ d. ok (front ++ d))
                  (sym (append_assoc (pair tag value) (dyn_bytes word es) tail)))
            | inr more ↦ rw more (
                later
                ∙ ap (λ d. ok (front ++ d))
                    (sym (append_assoc (pair tag value) (dyn_bytes word (patched addr es)) tail)))
          ])
        ])

  entries_below :
      (es : List DynEntry) (tail : List ℕ)
      → length es ≤ length (dyn_bytes (long_size arch) es ++ tail)
  entries_below [] tail = omega arith
  entries_below ((tag, value) ∷ es) tail =
      rw (append_assoc (pair tag value) (dyn_bytes (long_size arch) es) tail) (
        omega (
          arith,
          length-append (pair tag value) (dyn_bytes (long_size arch) es ++ tail),
          length-pair tag value,
          entry_words arch,
          word_pos arch,
          entries_below es tail,
        ))

-- On the bytes of a list of entries and an incomplete one, `patch_dt_debug` changes the value of the
-- first DT_DEBUG, if it stands in front of the first DT_NULL, into the address, and nothing else;
-- the tags fit the target's word, and the address 32 bits.
pub patch_dt_debug-patched :
    (arch : Architecture) (addr : ℕ) (es : List DynEntry) (tail : List ℕ)
    → addr < 2 ^ 32
    → TagsFit (long_size arch) es
    → length tail < entry_size arch
    → patch_dt_debug arch (dyn_bytes (long_size arch) es ++ tail) addr
      ≡ ok (dyn_bytes (long_size arch) (patched addr es) ++ tail)
unfolding patch_dt_debug
patch_dt_debug-patched arch addr es tail h t s =
    patch_entries arch addr (length (dyn_bytes (long_size arch) es ++ tail)) [] es tail h t s
      (entries_below arch addr es tail)
