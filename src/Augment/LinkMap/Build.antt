-- ===== src/Augment/LinkMap/Build.antt =====
-- `build_link_map_blob` of src/augment.rs makes the records that a debugger walks.
use minidump2core.Prelude.{
  ℕ, ◌+◌, ◌-◌, ◌*◌, ◌^◌, ◌<◌, ◌≤◌, ◌≡◌, refl, ap, sym, ◌∙◌, none, List, [], ◌∷◌, ◌++◌, length,
  arith, All, append_assoc, length-append,
}
use mathlib.Core.Path.{subst}
use minidump2core.Error.{ok}
use minidump2core.Bytes.{le_bytes, length-le_bytes}
use minidump2core.BTreeMap.{BTreeMap}
use minidump2core.Elf.Read.{read_le, read-le_append}
use minidump2core.Model.Architecture.{Architecture, long_size}
use minidump2core.Model.Process.{LinkMapEntry, DsoDebug}
use minidump2core.Augment.LinkMap.{
  link_map_addr, prev_addr, r_debug_size, r_map, build_link_map_blob,
}
use minidump2core.Augment.LinkMap.Chain.{
  word_at, IsChain, records_size, records, EntryFits, start_of, records-IsChain,
}
use minidump2core.Augment.LinkMap.Records.{push_word_ok, push_records}

-- The fields of `r_debug`.
abbrev debug_bytes : Architecture → DsoDebug → List ℕ
debug_bytes arch dso =
    let word = long_size arch in
    (((le_bytes word dso.version ++ le_bytes word (r_map arch dso.link_map))
        ++ le_bytes word dso.brk)
      ++ le_bytes word 0)
    ++ le_bytes word dso.ldbase

length-debug_bytes :
    (arch : Architecture) (dso : DsoDebug) → length (debug_bytes arch dso) ≡ r_debug_size arch
unfolding le_bytes long_size
length-debug_bytes arch dso = ground arith

r_map-start :
    (arch : Architecture) (signatures : BTreeMap (List ℕ)) (es : List LinkMapEntry)
    → r_map arch es ≡ start_of (long_size arch) signatures (link_map_addr + r_debug_size arch) es
r_map-start arch signatures [] = refl
r_map-start arch signatures (e ∷ es) = refl

r_map-le :
    (arch : Architecture) (es : List LinkMapEntry)
    → r_map arch es ≤ link_map_addr + r_debug_size arch
r_map-le arch [] = omega arith
r_map-le arch (e ∷ es) = omega arith

-- The fields of `r_debug` and of the link map fit the target's word, and so does the end of the blob.
pub record BlobFits (arch : Architecture) (dso : DsoDebug) (signatures : BTreeMap (List ℕ))
    : Type 0 where
  pub version : dso.version < 256 ^ long_size arch
  pub brk : dso.brk < 256 ^ long_size arch
  pub ldbase : dso.ldbase < 256 ^ long_size arch
  pub entries : All (EntryFits (long_size arch) signatures) dso.link_map
  pub end :
      link_map_addr + r_debug_size arch + records_size (long_size arch) signatures dso.link_map
      < 256 ^ long_size arch

built :
    (arch : Architecture) (dso : DsoDebug) (signatures : BTreeMap (List ℕ))
    → BlobFits arch dso signatures
    → build_link_map_blob arch dso signatures
      ≡ ok (
          debug_bytes arch dso
          ++ records
              (long_size arch)
              signatures
              0
              (link_map_addr + length (debug_bytes arch dso))
              dso.link_map)
unfolding build_link_map_blob prev_addr
built arch dso signatures f =
    let word = long_size arch in
    let b1 : List ℕ = le_bytes word dso.version in
    let b2 : List ℕ = b1 ++ le_bytes word (r_map arch dso.link_map) in
    let b3 : List ℕ = b2 ++ le_bytes word dso.brk in
    let b4 : List ℕ = b3 ++ le_bytes word 0 in
    rw
      (
        push_word_ok arch [] dso.version f.version,
        push_word_ok arch b1 (r_map arch dso.link_map)
            (omega (arith, f.end, r_map-le arch dso.link_map)),
        push_word_ok arch b2 dso.brk f.brk,
        push_word_ok arch b3 0 (omega (arith, f.version)),
        push_word_ok arch b4 dso.ldbase f.ldbase,
      )
      (push_records arch signatures none 0 dso.link_map (debug_bytes arch dso) refl
        (omega (arith, f.version)) f.entries (omega (arith, f.end, length-debug_bytes arch dso)))

-- Five words in a row, and what they are read as.
abbrev five : ℕ → ℕ → ℕ → ℕ → ℕ → ℕ → List ℕ → List ℕ
five word a b c d e rest =
    ((((le_bytes word a ++ le_bytes word b) ++ le_bytes word c) ++ le_bytes word d)
      ++ le_bytes word e)
    ++ rest

abbrev ReadsFive : ℕ → ℕ → ℕ → ℕ → ℕ → ℕ → List ℕ → Type 0
ReadsFive word a b c d e image =
    (read_le word 0 image ≡ a)
    × (read_le word word image ≡ b)
    × (read_le word (2 * word) image ≡ c)
    × (read_le word (3 * word) image ≡ d)
    × (read_le word (4 * word) image ≡ e)

module _ (word a b c d e : ℕ) (rest : List ℕ) where
  read_five :
      (a < 256 ^ word)
      → (b < 256 ^ word)
      → (c < 256 ^ word)
      → (d < 256 ^ word)
      → (e < 256 ^ word)
      → ReadsFive word a b c d e (five word a b c d e rest)
  read_five ha hb hc hd he =
      let la : List ℕ = le_bytes word a in
      let lb : List ℕ = la ++ le_bytes word b in
      let lc : List ℕ = lb ++ le_bytes word c in
      let ld : List ℕ = lc ++ le_bytes word d in
      let na : length la ≡ word = length-le_bytes word a in
      let nb : length lb ≡ 2 * word =
        length-append la _ ∙ omega (arith, na, length-le_bytes word b) in
      let nc : length lc ≡ 3 * word =
        length-append lb _ ∙ omega (arith, nb, length-le_bytes word c) in
      let nd : length ld ≡ 4 * word =
        length-append lc _ ∙ omega (arith, nc, length-le_bytes word d) in
      let at =
        λ (k v : ℕ) (front back : List ℕ)
            (p : five word a b c d e rest ≡ front ++ (le_bytes word v ++ back))
            (q : k ≡ length front) (h : v < 256 ^ word).
          ap (read_le word k) p ∙ read-le_append word k front v back q h in
      (
        at 0 a []
            (le_bytes word b ++ (le_bytes word c ++ (le_bytes word d ++ (le_bytes word e ++ rest))))
            (simp append_assoc) refl ha,
        at word b la (le_bytes word c ++ (le_bytes word d ++ (le_bytes word e ++ rest)))
            (simp append_assoc) (sym na) hb,
        at (2 * word) c lb (le_bytes word d ++ (le_bytes word e ++ rest)) (simp append_assoc)
            (sym nb) hc,
        at (3 * word) d lc (le_bytes word e ++ rest) (simp append_assoc) (sym nc) hd,
        at (4 * word) e ld rest (simp append_assoc) (sym nd) he,
      )

minus_base : (k : ℕ) → link_map_addr + k - link_map_addr ≡ k
minus_base k = omega arith

-- Where the fields and the size of the blob fit the target's word, `build_link_map_blob` succeeds,
-- and a debugger that finds the blob at LINK_MAP_ADDR reads the version, the address of the first
-- record, the `brk` address, a consistent state and the loader's base in `r_debug`, and from there
-- walks a doubly linked list of exactly the entries, each with the name that `name_for` gives.
pub build_link_map_blob-IsChain :
    (arch : Architecture) (dso : DsoDebug) (signatures : BTreeMap (List ℕ))
    → BlobFits arch dso signatures
    → (blob : List ℕ) × (build_link_map_blob arch dso signatures ≡ ok blob)
      × (word_at (long_size arch) blob link_map_addr ≡ dso.version)
      × (word_at (long_size arch) blob (link_map_addr + 2 * long_size arch) ≡ dso.brk)
      × (word_at (long_size arch) blob (link_map_addr + 3 * long_size arch) ≡ 0)
      × (word_at (long_size arch) blob (link_map_addr + 4 * long_size arch) ≡ dso.ldbase)
      × IsChain
          (long_size arch)
          signatures
          blob
          0
          (word_at (long_size arch) blob (link_map_addr + long_size arch))
          dso.link_map
build_link_map_blob-IsChain arch dso signatures f =
    let word = long_size arch in
    let start = link_map_addr + length (debug_bytes arch dso) in
    let here : start ≡ link_map_addr + r_debug_size arch =
      ap (λ k. link_map_addr + k) (length-debug_bytes arch dso) in
    let rest : List ℕ = records word signatures 0 start dso.link_map in
    let map_fits : r_map arch dso.link_map < 256 ^ word =
      omega (arith, f.end, r_map-le arch dso.link_map) in
    let zero_fits : 0 < 256 ^ word = omega (arith, f.version) in
    let (version, map, brk, state, base) =
      read_five word dso.version (r_map arch dso.link_map) dso.brk 0 dso.ldbase rest f.version
        map_fits f.brk zero_fits f.ldbase in
    let r_map_at : word_at word (debug_bytes arch dso ++ rest) (link_map_addr + word)
        ≡ start_of word signatures start dso.link_map =
      ap (λ k. read_le word k (debug_bytes arch dso ++ rest)) (minus_base word)
      ∙ map
      ∙ r_map-start arch signatures dso.link_map
      ∙ ap (λ k. start_of word signatures k dso.link_map) (sym here) in
    (
      debug_bytes arch dso ++ rest,
      built arch dso signatures f,
      version,
      ap (λ k. read_le word k (debug_bytes arch dso ++ rest)) (minus_base (2 * word)) ∙ brk,
      ap (λ k. read_le word k (debug_bytes arch dso ++ rest)) (minus_base (3 * word)) ∙ state,
      ap (λ k. read_le word k (debug_bytes arch dso ++ rest)) (minus_base (4 * word)) ∙ base,
      subst (λ a. IsChain word signatures (debug_bytes arch dso ++ rest) 0 a dso.link_map)
          (sym r_map_at)
          (records-IsChain word signatures (debug_bytes arch dso) 0 start dso.link_map refl
            zero_fits f.entries (omega (arith, f.end, here))),
    )
