-- ===== src/CoreWriter/Image/Table.antt =====
-- The program header table of the image, read back.
use minidump2core.Prelude.{
  ℕ, zero, suc, ◌*◌, ◌≡◌, refl, ap, sym, ◌∙◌, arith, List, [], ◌∷◌, ◌++◌, length, drop, All,
  drop-append, append_assoc, length-append,
}
use minidump2core.Elf.{ElfHeader, ProgramHeader, phdr_size}
use minidump2core.Elf.Read.{
  Fits, addr_size, phdr_bytes, read_phdr, read-phdr_bytes, length-phdr_bytes,
}
use minidump2core.Model.Mapping.{Mapping}
use minidump2core.BTreeMap.{BTreeMap, values}
use minidump2core.CoreWriter.Image.{load_phdrs, table_bytes}

-- `n` headers in a row.
unfoldable pub read_table : ElfHeader → ℕ → List ℕ → List ProgramHeader
read_table h zero image = []
read_table h (suc n) image = read_phdr h.class image ∷ read_table h n (drop (phdr_size h) image)

pub read_table-bytes :
    (h : ElfHeader) (phs : List ProgramHeader) (rest : List ℕ)
    → All (Fits (addr_size h.class)) phs
    → read_table h (length phs) (table_bytes h.class phs ++ rest) ≡ phs
unfolding read_table table_bytes
read_table-bytes h [] rest f = refl
read_table-bytes h (ph ∷ phs) rest f =
    rw (append_assoc (phdr_bytes h.class ph) (table_bytes h.class phs) rest) (λ i.
      read-phdr_bytes ph h.class (table_bytes h.class phs ++ rest) f.0 i
      ∷ (ap (read_table h (length phs)) (
              drop-append (phdr_size h) (phdr_bytes h.class ph) (table_bytes h.class phs ++ rest)
                (sym (length-phdr_bytes ph h)))
            ∙ read_table-bytes h phs rest f.1)
          i)

pub length-table_bytes :
    (h : ElfHeader) (phs : List ProgramHeader)
    → length (table_bytes h.class phs) ≡ phdr_size h * length phs
unfolding table_bytes
length-table_bytes h [] = omega arith
length-table_bytes h (ph ∷ phs) =
    length-append (phdr_bytes h.class ph) (table_bytes h.class phs)
    ∙ omega (arith, length-phdr_bytes ph h, length-table_bytes h phs)

pub length-load_phdrs : (ms : List Mapping) (o z : ℕ) → length (load_phdrs ms o z) ≡ length ms
unfolding load_phdrs
length-load_phdrs [] o z = refl
length-load_phdrs (m ∷ ms) o z = ap suc (length-load_phdrs ms _ z)

pub length-values {ℓ} : {V : Type ℓ} (m : BTreeMap V) → length (values m) ≡ length m
unfolding values
length-values [] = refl
length-values (e ∷ m) = ap suc (length-values m)
