-- ===== src/Augment/LinkMap/Chain.antt =====
-- The link map of src/augment.rs as a debugger walks it.
use minidump2core.Prelude.{
  ℕ, suc, ◌+◌, ◌-◌, ◌*◌, ◌^◌, ◌<◌, ◌≤◌, ◌≡◌, refl, ap, sym, ◌∙◌, List, [], ◌∷◌, ◌++◌, length,
  replicate, arith, All, append_assoc, length-append, length-replicate,
}
use mathlib.Core.Path.{subst}
use minidump2core.Bytes.{le_bytes, length-le_bytes, slice, slice-append}
use minidump2core.BTreeMap.{BTreeMap}
use minidump2core.Elf.Read.{read_le, read-le_append}
use minidump2core.Model.Process.{LinkMapEntry}
use minidump2core.Augment.LinkMap.{link_map_addr, name_for, name_pad, filename_padded_size}

-- The word at an address of the blob.
abbrev pub word_at : ℕ → List ℕ → ℕ → ℕ
word_at word blob a = read_le word (a - link_map_addr) blob

-- A debugger that comes from the record `prev` to the address `here` finds the records of these
-- entries: `l_addr`, the NUL-terminated name that `l_name` points to, `l_ld`, the way back in
-- `l_prev`, and the way on in `l_next`, which is 0 behind the last.
abbrev pub IsChain : ℕ → BTreeMap (List ℕ) → List ℕ → ℕ → ℕ → List LinkMapEntry → Type 0
IsChain word signatures blob prev here [] = here ≡ 0
IsChain word signatures blob prev here (e ∷ es) =
    let name = name_for signatures e in
    (word_at word blob here ≡ e.addr)
    × (slice (word_at word blob (here + word) - link_map_addr) (length name + 1) blob
        ≡ name ++ (0 ∷ []))
    × (word_at word blob (here + 2 * word) ≡ e.ld)
    × (word_at word blob (here + 4 * word) ≡ prev)
    × IsChain word signatures blob here (word_at word blob (here + 3 * word)) es

-- The padding of a name holds its NUL.
pad_nul : (n : ℕ) → replicate {A = ℕ} (name_pad n) 0 ≡ 0 ∷ replicate (name_pad n - 1) 0
pad_nul n =
    let one_more : name_pad n ≡ suc (name_pad n - 1) = omega arith in
    ap (λ k. replicate {A = ℕ} k 0) one_more

module _ (word : ℕ) (signatures : BTreeMap (List ℕ)) where
  -- The size of a record with its name, and of all of them.
  unfoldable pub record_size : LinkMapEntry → ℕ
  record_size e = 5 * word + filename_padded_size (name_for signatures e)

  unfoldable pub records_size : List LinkMapEntry → ℕ
  unfolding record_size
  records_size [] = 0
  records_size (e ∷ es) = record_size e + records_size es

  -- The address of the next record.
  abbrev pub next_of : ℕ → LinkMapEntry → List LinkMapEntry → ℕ
  next_of here e [] = 0
  next_of here e (f ∷ fs) = here + record_size e

  -- The bytes of a record, and of all records.
  abbrev pub one_record : ℕ → ℕ → LinkMapEntry → List LinkMapEntry → List ℕ → List ℕ
  one_record prev here e es rest =
      let name = name_for signatures e in
      le_bytes word e.addr
      ++ (le_bytes word (here + 5 * word)
          ++ (le_bytes word e.ld
              ++ (le_bytes word (next_of here e es)
                  ++ (le_bytes word prev
                      ++ (name ++ (replicate (name_pad (length name)) 0 ++ rest))))))

  unfoldable pub records : ℕ → ℕ → List LinkMapEntry → List ℕ
  unfolding record_size
  records prev here [] = []
  records prev here (e ∷ es) = one_record prev here e es (records here (here + record_size e) es)

  abbrev pub EntryFits : LinkMapEntry → Type 0
  EntryFits e = (e.addr < 256 ^ word) × (e.ld < 256 ^ word)

  module _ (front : List ℕ) (prev here : ℕ) (e : LinkMapEntry) (es : List LinkMapEntry)
      (rest : List ℕ) (at : here ≡ link_map_addr + length front) where
    abbrev name : List ℕ
    name = name_for signatures e

    abbrev blob : List ℕ
    blob = front ++ one_record prev here e es rest

    -- The front of each field.
    abbrev front1 : List ℕ
    front1 = front ++ le_bytes word e.addr

    abbrev front2 : List ℕ
    front2 = front1 ++ le_bytes word (here + 5 * word)

    abbrev front3 : List ℕ
    front3 = front2 ++ le_bytes word e.ld

    abbrev front4 : List ℕ
    front4 = front3 ++ le_bytes word (next_of here e es)

    abbrev front5 : List ℕ
    front5 = front4 ++ le_bytes word prev

    length-front1 : length front1 ≡ length front + word
    length-front1 = length-append front _ ∙ ap (λ k. length front + k) (length-le_bytes word e.addr)

    length-front2 : length front2 ≡ length front + 2 * word
    length-front2 =
        length-append front1 _
        ∙ omega (arith, length-front1, length-le_bytes word (here + 5 * word))

    length-front3 : length front3 ≡ length front + 3 * word
    length-front3 = length-append front2 _ ∙ omega (arith, length-front2, length-le_bytes word e.ld)

    length-front4 : length front4 ≡ length front + 4 * word
    length-front4 =
        length-append front3 _
        ∙ omega (arith, length-front3, length-le_bytes word (next_of here e es))

    length-front5 : length front5 ≡ length front + 5 * word
    length-front5 = length-append front4 _ ∙ omega (arith, length-front4, length-le_bytes word prev)

    read_addr : e.addr < 256 ^ word → word_at word blob here ≡ e.addr
    read_addr h = read-le_append word _ front e.addr _ (omega (arith, at)) h

    read_name_pointer :
        here + 5 * word < 256 ^ word → word_at word blob (here + word) ≡ here + 5 * word
    read_name_pointer h =
        ap (read_le word (here + word - link_map_addr)) (simp append_assoc)
        ∙ read-le_append word _ front1 (here + 5 * word)
            (le_bytes word e.ld
              ++ (le_bytes word (next_of here e es)
                  ++ (le_bytes word prev
                      ++ (name ++ (replicate (name_pad (length name)) 0 ++ rest)))))
            (omega (arith, at, length-front1)) h

    -- What stands behind the fixed part of the record.
    abbrev name_block : List ℕ
    name_block = name ++ (replicate (name_pad (length name)) 0 ++ rest)

    read_ld : e.ld < 256 ^ word → word_at word blob (here + 2 * word) ≡ e.ld
    read_ld h =
        ap (read_le word (here + 2 * word - link_map_addr)) (simp append_assoc)
        ∙ read-le_append word _ front2 e.ld
            (le_bytes word (next_of here e es) ++ (le_bytes word prev ++ name_block))
            (omega (arith, at, length-front2)) h

    read_next :
        next_of here e es < 256 ^ word → word_at word blob (here + 3 * word) ≡ next_of here e es
    read_next h =
        ap (read_le word (here + 3 * word - link_map_addr)) (simp append_assoc)
        ∙ read-le_append word _ front3 (next_of here e es) (le_bytes word prev ++ name_block)
            (omega (arith, at, length-front3)) h

    read_prev : prev < 256 ^ word → word_at word blob (here + 4 * word) ≡ prev
    read_prev h =
        ap (read_le word (here + 4 * word - link_map_addr)) (simp append_assoc)
        ∙ read-le_append word _ front4 prev name_block (omega (arith, at, length-front4)) h

    read_name : slice (here + 5 * word - link_map_addr) (length name + 1) blob ≡ name ++ (0 ∷ [])
    read_name =
        ap (slice (here + 5 * word - link_map_addr) (length name + 1))
          (ap (λ t. front ++ one_with t) (pad_nul (length name)) ∙ simp append_assoc)
        ∙ slice-append _ _ front5 (name ++ (0 ∷ []))
            (replicate (name_pad (length name) - 1) 0 ++ rest) (omega (arith, at, length-front5))
            (omega (arith, length-append name (0 ∷ [])))
      where
        one_with : List ℕ → List ℕ
        one_with zeros =
            le_bytes word e.addr
            ++ (le_bytes word (here + 5 * word)
                ++ (le_bytes word e.ld
                    ++ (le_bytes word (next_of here e es)
                        ++ (le_bytes word prev ++ (name ++ (zeros ++ rest))))))

    blob_regroup : blob ≡ (front5 ++ (name ++ replicate (name_pad (length name)) 0)) ++ rest
    blob_regroup = simp append_assoc

    length-record :
        length (front5 ++ (name ++ replicate (name_pad (length name)) 0))
        ≡ length front + record_size e
    unfolding record_size filename_padded_size
    length-record =
        length-append front5 _
        ∙ omega (
          arith,
          length-front5,
          length-append name (replicate (name_pad (length name)) 0),
          length-replicate {A = ℕ} (name_pad (length name)) 0,
        )

  -- The address where a debugger expects records, 0 where there are none.
  abbrev pub start_of : ℕ → List LinkMapEntry → ℕ
  start_of here [] = 0
  start_of here (e ∷ es) = here

  next-start :
      (here : ℕ) (e : LinkMapEntry) (es : List LinkMapEntry)
      → next_of here e es ≡ start_of (here + record_size e) es
  next-start here e [] = refl
  next-start here e (f ∷ fs) = refl

  start-le : (here : ℕ) (es : List LinkMapEntry) → start_of here es ≤ here
  start-le here [] = omega arith
  start-le here (e ∷ es) = omega arith

  pub records-IsChain :
      (front : List ℕ) (prev here : ℕ) (es : List LinkMapEntry)
      → here ≡ link_map_addr + length front
      → prev < 256 ^ word
      → All EntryFits es
      → here + records_size es < 256 ^ word
      → IsChain word signatures (front ++ records prev here es) prev (start_of here es) es
  unfolding records records_size record_size
  records-IsChain front prev here [] at h fits size = refl
  records-IsChain front prev here (e ∷ es) at h fits size =
      let later : ℕ = here + record_size e in
      let rest : List ℕ = records here later es in
      let next : List ℕ =
        front5 front prev here e es rest at
        ++ (name front prev here e es rest at
            ++ replicate (name_pad (length (name front prev here e es rest at))) 0) in
      let small : here + 5 * word < 256 ^ word = omega arith in
      let follows : start_of later es < 256 ^ word = omega (arith, start-le later es) in
      let next_at : word_at word (blob front prev here e es rest at) (here + 3 * word)
          ≡ start_of later es =
        read_next front prev here e es rest at
          (subst (λ k. k < 256 ^ word) (sym (next-start here e es)) follows)
        ∙ next-start here e es in
      let pointer = read_name_pointer front prev here e es rest at small in
      (
        read_addr front prev here e es rest at fits.0.0,
        ap
              (λ p.
                slice (p - link_map_addr) (length (name_for signatures e) + 1)
                  (blob front prev here e es rest at))
              pointer
            ∙ read_name front prev here e es rest at,
        read_ld front prev here e es rest at fits.0.1,
        read_prev front prev here e es rest at h,
        rw next_at (
            subst (λ t. IsChain word signatures t here (start_of later es) es)
              (sym (blob_regroup front prev here e es rest at))
              (records-IsChain next here later es
                (omega (arith, length-record front prev here e es rest at)) (omega arith) fits.1
                (omega arith))),
      )
