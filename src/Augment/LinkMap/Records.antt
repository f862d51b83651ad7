-- ===== src/Augment/LinkMap/Records.antt =====
-- The loop of `build_link_map_blob` of src/augment.rs writes the records of `Chain`.
use minidump2core.Prelude.{
  ℕ, ◌+◌, ◌-◌, ◌*◌, ◌^◌, ◌<◌, ◌≤◌, ◌≡◌, refl, ap, sym, ◌∙◌, Option, some, List, [], ◌∷◌, ◌++◌,
  length, replicate, arith, All, append_assoc, append-nil, length-append, length-replicate,
}
use minidump2core.Error.{ok}
use minidump2core.Bytes.{le_bytes, length-le_bytes, resize_grow}
use minidump2core.BTreeMap.{BTreeMap}
use minidump2core.Model.Architecture.{Architecture, long_size}
use minidump2core.Model.Process.{LinkMapEntry}
use minidump2core.Augment.LinkMap.{
  link_map_addr, push_word, name_for, name_pad, filename_padded_size, link_map_record_addr,
  prev_addr, next_addr, push_link_maps,
}
use minidump2core.Augment.LinkMap.Chain.{
  record_size, records_size, next_of, one_record, records, EntryFits,
}

pub push_word_ok :
    (arch : Architecture) (out : List ℕ) (v : ℕ)
    → v < 256 ^ long_size arch
    → push_word out v (long_size arch) ≡ ok (out ++ le_bytes (long_size arch) v)
unfolding push_word long_size
push_word_ok arch out v h = ground arith

module _ (arch : Architecture) (signatures : BTreeMap (List ℕ)) where
  abbrev word : ℕ
  word = long_size arch

  next_addr-of :
      (bytes : List ℕ) (e : LinkMapEntry) (es : List LinkMapEntry)
      → next_addr (5 * word) bytes (name_for signatures e) es
        ≡ next_of word signatures (link_map_addr + length bytes) e es
  unfolding next_addr record_size
  next_addr-of bytes e [] = refl
  next_addr-of bytes e (f ∷ fs) = omega arith

  next_of-le :
      (here : ℕ) (e : LinkMapEntry) (es : List LinkMapEntry)
      → next_of word signatures here e es ≤ here + record_size word signatures e
  next_of-le here e [] = omega arith
  next_of-le here e (f ∷ fs) = omega arith

  -- One turn of the loop.
  push_record :
      (before : Option LinkMapEntry) (prev : ℕ) (e : LinkMapEntry) (es : List LinkMapEntry)
      (bytes : List ℕ)
      → prev_addr signatures (5 * word) bytes before ≡ prev
      → prev < 256 ^ word
      → EntryFits word signatures e
      → link_map_addr + length bytes + record_size word signatures e < 256 ^ word
      → push_link_maps signatures word before (e ∷ es) bytes
        ≡ push_link_maps signatures word
            (some e)
            es
            (bytes ++ one_record word signatures prev (link_map_addr + length bytes) e es [])
  unfolding push_link_maps record_size
  push_record before prev e es bytes back h fits size =
      let name = name_for signatures e in
      let here : ℕ = link_map_addr + length bytes in
      let b1 : List ℕ = bytes ++ le_bytes word e.addr in
      let b2 : List ℕ = b1 ++ le_bytes word (here + 5 * word) in
      let b3 : List ℕ = b2 ++ le_bytes word e.ld in
      let b4 : List ℕ = b3 ++ le_bytes word (next_of word signatures here e es) in
      let b5 : List ℕ = b4 ++ le_bytes word prev in
      let extra : length (b5 ++ name) + name_pad (length name) - length (b5 ++ name)
          ≡ name_pad (length name) =
        omega arith in
      rw
        (
          back,
          next_addr-of bytes e es,
          push_word_ok arch bytes e.addr fits.0,
          push_word_ok arch b1 (here + 5 * word) (omega arith),
          push_word_ok arch b2 e.ld fits.1,
          push_word_ok arch b3 (next_of word signatures here e es)
              (omega (arith, next_of-le here e es)),
          push_word_ok arch b4 prev h,
          resize_grow (b5 ++ name) (length (b5 ++ name) + name_pad (length name)) (omega arith),
        )
        (ap (push_link_maps signatures word (some e) es)
          (ap (λ k. (b5 ++ name) ++ replicate {A = ℕ} k 0) extra ∙ simp (append_assoc, append-nil)))

  length-one_record :
      (prev here : ℕ) (e : LinkMapEntry) (es : List LinkMapEntry)
      → length (one_record word signatures prev here e es []) ≡ record_size word signatures e
  unfolding record_size filename_padded_size
  length-one_record prev here e es =
      let name : List ℕ = name_for signatures e in
      let zeros : List ℕ = replicate (name_pad (length name)) 0 in
      let l5 : List ℕ = name ++ (zeros ++ []) in
      let l4 : List ℕ = le_bytes word prev ++ l5 in
      let l3 : List ℕ = le_bytes word (next_of word signatures here e es) ++ l4 in
      let l2 : List ℕ = le_bytes word e.ld ++ l3 in
      let l1 : List ℕ = le_bytes word (here + 5 * word) ++ l2 in
      omega (
        arith,
        length-append (le_bytes word e.addr) l1,
        length-append (le_bytes word (here + 5 * word)) l2,
        length-append (le_bytes word e.ld) l3,
        length-append (le_bytes word (next_of word signatures here e es)) l4,
        length-append (le_bytes word prev) l5,
        length-append name (zeros ++ []),
        length-append zeros [],
        length-replicate {A = ℕ} (name_pad (length name)) 0,
        length-le_bytes word e.addr,
        length-le_bytes word (here + 5 * word),
        length-le_bytes word e.ld,
        length-le_bytes word (next_of word signatures here e es),
        length-le_bytes word prev,
      )

  -- The record behind which the data ends is where `link_map_record_addr` says.
  came_from :
      (here : ℕ) (e : LinkMapEntry) (bytes : List ℕ)
      → link_map_addr + length bytes ≡ here + record_size word signatures e
      → prev_addr signatures (5 * word) bytes (some e) ≡ here
  unfolding prev_addr link_map_record_addr record_size
  came_from here e bytes s = omega (arith, s)

  pub push_records :
      (before : Option LinkMapEntry) (prev : ℕ) (es : List LinkMapEntry) (bytes : List ℕ)
      → prev_addr signatures (5 * word) bytes before ≡ prev
      → prev < 256 ^ word
      → All (EntryFits word signatures) es
      → link_map_addr + length bytes + records_size word signatures es < 256 ^ word
      → push_link_maps signatures word before es bytes
        ≡ ok (bytes ++ records word signatures prev (link_map_addr + length bytes) es)
  unfolding push_link_maps records records_size
  push_records before prev [] bytes back h fits size = ap ok (sym (append-nil bytes))
  push_records before prev (e ∷ es) bytes back h fits size =
      let here : ℕ = link_map_addr + length bytes in
      let one : List ℕ = one_record word signatures prev here e es [] in
      let size' : link_map_addr + length (bytes ++ one) ≡ here + record_size word signatures e =
        omega (arith, length-append bytes one, length-one_record prev here e es) in
      push_record before prev e es bytes back h fits.0 (omega arith)
      ∙ push_records (some e) here es (bytes ++ one) (came_from here e (bytes ++ one) size')
          (omega arith) fits.1 (omega (arith, size'))
      ∙ ap ok (
          ap (λ k. (bytes ++ one) ++ records word signatures here k es) size'
          ∙ simp (append_assoc, append-nil))
