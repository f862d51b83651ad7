-- ===== src/RustMinidump/ElfFile/Headers.antt =====
-- The program headers of a file as a list, and what the loops of src/rust_minidump.rs find in them.
use minidump2core.Prelude.{
  ℕ, zero, suc, ◌+◌, ◌*◌, ◌^◌, ◌≡◌, refl, ap, ◌∙◌, ◌≢◌, arith, inl, inr, Bool, true, Bool-cases,
  Option, none, some, Option-cases, List, [], ◌∷◌, ltb, ◌==◌, if◌then◌else◌, ◌>>?◌,
}
use minidump2core.Model.Architecture.{Architecture}
use minidump2core.RustMinidump.ElfFile.{
  read_u32_le, read_word, phdr_table, elf_class_of, PhdrTable, scan, load_segment, Vaddrs,
  note_vaddr, vaddr_body, no_vaddrs, scan_vaddrs,
}

-- The type and the address of an entry.
abbrev pub Entry : Type 0
Entry = ℕ × ℕ

-- The entry at `o`, where that is an address.
unfoldable pub entry_at : Bool → List ℕ → ℕ → Option Entry
entry_at is_64 bytes o =
    if ltb o (2 ^ 64)
    then (read_u32_le bytes o >>? λ p_type.
        read_word is_64 bytes (o + 16) (o + 8) >>? λ p_vaddr. some (p_type, p_vaddr))
    else none

-- `n` entries from the one with the index `i`.
unfoldable pub entries_from : Bool → List ℕ → PhdrTable → ℕ → ℕ → Option (List Entry)
unfolding entry_at
entries_from is_64 bytes table zero i = some []
entries_from is_64 bytes table (suc n) i =
    entry_at is_64 bytes (table.e_phoff + i * table.e_phentsize) >>? λ e.
    entries_from is_64 bytes table n (suc i) >>? λ es. some (e ∷ es)

unfoldable pub first_vaddr : ℕ → List Entry → Option ℕ
first_vaddr kind [] = none
first_vaddr kind ((p_type, p_vaddr) ∷ es) =
    if p_type == kind then some p_vaddr else first_vaddr kind es

unfoldable pub last_vaddr : ℕ → List Entry → Option ℕ
last_vaddr kind [] = none
last_vaddr kind ((p_type, p_vaddr) ∷ es) = elim (last_vaddr kind es) [
  | some later ↦ some later
  | none ↦ if p_type == kind then some p_vaddr else none
]

abbrev pub or_else : Option ℕ → Option ℕ → Option ℕ
or_else (some a) b = some a
or_else none b = b

abbrev pub found_in : ℕ → Vaddrs → List Entry → Vaddrs
found_in kind s es = record {
  first_load = or_else s.first_load (first_vaddr load_segment es);
  wanted = or_else (last_vaddr kind es) s.wanted;
}

abbrev consed : Entry → List Entry → Option (List Entry)
consed e es = some (e ∷ es)

abbrev some_entry : ℕ → ℕ → Option Entry
some_entry p_type p_vaddr = some (p_type, p_vaddr)

-- One entry, and then the others.
found_in-cons :
    (kind p_type p_vaddr : ℕ) (s : Vaddrs) (es : List Entry)
    → kind ≢ load_segment
    → found_in kind (note_vaddr kind p_type p_vaddr s) es ≡ found_in kind s ((p_type, p_vaddr) ∷ es)
unfolding first_vaddr last_vaddr
found_in-cons kind p_type p_vaddr s es h =
    go s.first_load s.wanted (first_vaddr load_segment es) (last_vaddr kind es)
  where
    go :
        (a w f l : Option ℕ)
        → ◌≡◌ {A = Vaddrs}
            (record {
              first_load =
                  or_else
                    (note_vaddr kind p_type p_vaddr
                      (record { first_load = a; wanted = w })).first_load
                    f;
              wanted =
                  or_else l
                    (note_vaddr kind p_type p_vaddr (record { first_load = a; wanted = w })).wanted;
            })
            (record {
              first_load = or_else a (if p_type == load_segment then some p_vaddr else f);
              wanted =
                  or_else
                    (elim l as (λ (_ : Option ℕ). Option ℕ) [
                      | some later ↦ some later
                      | none ↦ if p_type == kind then some p_vaddr else none
                    ])
                    w;
            })
    go none w f none = ground (arith, h)
    go none w f (some l) = ground (arith, h)
    go (some a) w f none = ground (arith, h)
    go (some a) w f (some l) = ground (arith, h)

-- A round reads the entry at its offset, and stops where that is no address.
scan-step :
    (kind : ℕ) (is_64 : Bool) (bytes : List ℕ) (table : PhdrTable) (n i : ℕ) (s : Vaddrs)
    → scan (vaddr_body kind is_64 bytes) table (suc n) i s ≡ (
        entry_at is_64 bytes (table.e_phoff + i * table.e_phentsize) >>? λ e.
        scan (vaddr_body kind is_64 bytes) table n (suc i) (note_vaddr kind e.0 e.1 s))
unfolding scan entry_at vaddr_body
scan-step kind is_64 bytes table n i s =
    elim (Bool-cases (ltb (table.e_phoff + i * table.e_phentsize) (2 ^ 64))) [
      | inl t ↦
          let small : ltb (i * table.e_phentsize) (2 ^ 64) ≡ true = ground (arith, t) in
          rw small (
            rw t (
              reads (read_u32_le bytes (table.e_phoff + i * table.e_phentsize)) (
                read_word is_64 bytes (table.e_phoff + i * table.e_phentsize + 16)
                  (table.e_phoff + i * table.e_phentsize + 8))))
      | inr f ↦ elim (Bool-cases (ltb (i * table.e_phentsize) (2 ^ 64))) [
        | inl u ↦ rw u (rw f refl)
        | inr u ↦ rw u (rw f refl)
      ]
    ]
  where
    reads :
        (t v : Option ℕ)
        → ((t >>? λ p_type. v >>? λ p_vaddr. some (note_vaddr kind p_type p_vaddr s)) >>? λ later.
            scan (vaddr_body kind is_64 bytes) table n (suc i) later)
          ≡ ((t >>? λ p_type. v >>? λ p_vaddr. some_entry p_type p_vaddr) >>? λ e.
              scan (vaddr_body kind is_64 bytes) table n (suc i) (note_vaddr kind e.0 e.1 s))
    reads none v = refl
    reads (some t) none = refl
    reads (some t) (some v) = refl

scan-zero :
    (kind : ℕ) (is_64 : Bool) (bytes : List ℕ) (table : PhdrTable) (i : ℕ) (s : Vaddrs)
    → scan (vaddr_body kind is_64 bytes) table 0 i s ≡ some s
unfolding scan
scan-zero kind is_64 bytes table i s = refl

found_in-nil : (kind : ℕ) (s : Vaddrs) → s ≡ found_in kind s []
unfolding first_vaddr last_vaddr
found_in-nil kind s = go s.first_load s.wanted
  where
    go :
        (a w : Option ℕ)
        → ◌≡◌ {A = Vaddrs}
            (record { first_load = a; wanted = w })
            (record { first_load = or_else a none; wanted = w })
    go none w = refl
    go (some a) w = refl

scan-entries_from :
    (kind : ℕ) (is_64 : Bool) (bytes : List ℕ) (table : PhdrTable) (n i : ℕ) (s : Vaddrs)
    → kind ≢ load_segment
    → scan (vaddr_body kind is_64 bytes) table n i s
      ≡ (entries_from is_64 bytes table n i >>? λ es. some (found_in kind s es))
unfolding entries_from
scan-entries_from kind is_64 bytes table zero i s h =
    scan-zero kind is_64 bytes table i s ∙ ap some (found_in-nil kind s)
scan-entries_from kind is_64 bytes table (suc n) i s h =
    elim (Option-cases (entry_at is_64 bytes (table.e_phoff + i * table.e_phentsize))) [
      | inl e ↦ scan-step kind is_64 bytes table n i s ∙ rw e refl
      | inr (e, t) ↦
          let later =
            scan-entries_from kind is_64 bytes table n (suc i) (note_vaddr kind e.0 e.1 s) h in
          scan-step kind is_64 bytes table n i s
          ∙ rw t (later ∙ go e.0 e.1 (entries_from is_64 bytes table n (suc i)))
    ]
  where
    go :
        (p_type p_vaddr : ℕ) (r : Option (List Entry))
        → (r >>? λ es. some (found_in kind (note_vaddr kind p_type p_vaddr s) es))
          ≡ ((r >>? λ es. consed (p_type, p_vaddr) es) >>? λ es. some (found_in kind s es))
    go p_type p_vaddr none = refl
    go p_type p_vaddr (some es) = ap some (found_in-cons kind p_type p_vaddr s es h)

-- The entries of the whole table.
unfoldable pub entries_of : Architecture → List ℕ → Option (List Entry)
unfolding entries_from
entries_of arch bytes = elf_class_of arch bytes >>? λ is_64.
    phdr_table is_64 bytes >>? λ table. entries_from is_64 bytes table table.e_phnum 0

abbrev pub none_found : ℕ → List Entry → Vaddrs
none_found kind es = record {
  first_load = first_vaddr load_segment es;
  wanted = last_vaddr kind es;
}

or_else-none : (a : Option ℕ) → or_else a none ≡ a
or_else-none none = refl
or_else-none (some a) = refl

-- On a table whose entries `es` lie in the file, the loop that looks for the first load address and
-- the last address of a kind finds them, and it fails where an entry does not.
pub scan_vaddrs-entries_from :
    (kind : ℕ) (is_64 : Bool) (bytes : List ℕ) (table : PhdrTable)
    → kind ≢ load_segment
    → scan_vaddrs kind is_64 bytes table
      ≡ (entries_from is_64 bytes table table.e_phnum 0 >>? λ es. some (none_found kind es))
unfolding scan_vaddrs
scan_vaddrs-entries_from kind is_64 bytes table h =
    scan-entries_from kind is_64 bytes table table.e_phnum 0 no_vaddrs h
    ∙ go (entries_from is_64 bytes table table.e_phnum 0)
  where
    go :
        (r : Option (List Entry))
        → (r >>? λ es. some (found_in kind no_vaddrs es)) ≡ (r >>? λ es. some (none_found kind es))
    go none = refl
    go (some es) =
        ap
          (λ (o : Option ℕ). some (record { first_load = first_vaddr load_segment es; wanted = o }))
          (or_else-none (last_vaddr kind es))
