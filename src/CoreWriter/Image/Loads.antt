-- ===== src/CoreWriter/Image/Loads.antt =====
-- Where the captured bytes of the mappings stand in the image, and what the PT_LOAD headers say of it.
use minidump2core.Prelude.{
  ℕ, suc, ◌+◌, ◌<◌, ◌≡◌, ◌⊎◌, inl, inr, refl, ap, sym, ◌∙◌, arith, List, [], ◌∷◌, ◌++◌, length, All,
  false, ◌==◌, if◌then◌else◌, append_assoc, length-append,
}
use minidump2core.Bytes.{slice, slice-append, IsU64}
use minidump2core.Elf.{ProgramHeader, pt_load}
use minidump2core.Model.Mapping.{Mapping}
use minidump2core.CoreWriter.{load_phdr, next_offset, total_data}
use minidump2core.CoreWriter.Image.{load_phdrs, data_bytes}
use mathlib.Core.Path.{subst}

-- A range of 64-bit addresses, as `Mapping::new` accepts it.
abbrev pub IsRange : Mapping → Type 0
IsRange m = (m.start_address < m.end_address) × IsU64 m.end_address

-- The header describes the mapping, and the image holds the mapping's bytes where the header says;
-- a header with no bytes points at the end of the image.
pub record Describes (image : List ℕ) (m : Mapping) (ph : ProgramHeader) : Type 0 where
  pub type : ph.p_type ≡ pt_load
  pub from : ph.p_vaddr ≡ m.start_address
  pub to : ph.p_vaddr + ph.p_memsz ≡ m.end_address
  pub size : ph.p_filesz ≡ length m.bytes
  pub contents : slice ph.p_offset ph.p_filesz image ≡ m.bytes
  pub beyond : (0 < length m.bytes) ⊎ (ph.p_offset ≡ length image)

abbrev pub AllDescribe : List ℕ → List Mapping → List ProgramHeader → Type 0
AllDescribe image [] [] = Unit
AllDescribe image (m ∷ ms) (ph ∷ phs) = Describes image m ph × AllDescribe image ms phs
AllDescribe image _ _ = ⊥

pub length-data_bytes : (ms : List Mapping) → length (data_bytes ms) ≡ total_data ms
unfolding data_bytes total_data
length-data_bytes [] = refl
length-data_bytes (m ∷ ms) =
    omega (arith, length-append m.bytes (data_bytes ms), length-data_bytes ms)

next_offset-eq : (m : Mapping) (o : ℕ) → next_offset m o ≡ o + length m.bytes
next_offset-eq m o = ground arith

located :
    (front bytes rest : List ℕ) (z : ℕ)
    → slice
        (if length bytes == 0 then z else length front)
        (if length bytes == 0 then 0 else length bytes)
        (front ++ (bytes ++ rest))
      ≡ bytes
located front [] rest z = refl
located front (b ∷ bytes) rest z =
    let some_bytes : (suc (length bytes) == 0) ≡ false = ground arith in
    rw some_bytes
      (slice-append (length front) (suc (length bytes)) front (b ∷ bytes) rest refl refl)

beyond_lem :
    (front bytes : List ℕ) {z end : ℕ}
    → z ≡ end
    → (0 < length bytes) ⊎ ((if length bytes == 0 then z else length front) ≡ end)
beyond_lem front [] h = inr h
beyond_lem front (b ∷ bytes) h = inl (omega arith)

Describes-first :
    (front : List ℕ) (m : Mapping) (rest : List ℕ) (z : ℕ)
    → IsRange m
    → z ≡ length (front ++ (m.bytes ++ rest))
    → Describes (front ++ (m.bytes ++ rest)) m (load_phdr m (length front) z)
unfolding load_phdr
Describes-first front m rest z r h = record {
  type = refl;
  from = refl;
  to = omega arith;
  size = ground arith;
  contents = located front m.bytes rest z;
  beyond = beyond_lem front m.bytes h;
}

-- Every header of the loop describes its mapping in the image that ends in the mappings' bytes.
pub load_phdrs-AllDescribe :
    (front : List ℕ) (ms : List Mapping) (o z : ℕ)
    → All IsRange ms
    → o ≡ length front
    → z ≡ length (front ++ data_bytes ms)
    → AllDescribe (front ++ data_bytes ms) ms (load_phdrs ms o z)
unfolding load_phdrs data_bytes
load_phdrs-AllDescribe front [] o z r h k = tt
load_phdrs-AllDescribe front (m ∷ ms) o z r h k =
    let image : List ℕ = front ++ (m.bytes ++ data_bytes ms) in
    let regroup : (front ++ m.bytes) ++ data_bytes ms ≡ image =
      append_assoc front m.bytes (data_bytes ms) in
    (
      subst (λ t. Describes image m (load_phdr m t z)) (sym h)
          (Describes-first front m (data_bytes ms) z r.0 k),
      subst (λ t. AllDescribe t ms (load_phdrs ms (next_offset m o) z)) regroup
          (load_phdrs-AllDescribe (front ++ m.bytes) ms (next_offset m o) z r.1
            (omega (arith, next_offset-eq m o, length-append front m.bytes))
            (k ∙ ap length (sym regroup))),
    )
