-- ===== src/RustMinidump/ElfFile/Auxv/Relocated.antt =====
-- Which addresses `build_synthetic_auxv` gives.
use minidump2core.Prelude.{
  ℕ, ◌+◌, ◌-◌, ◌≤◌, ◌≡◌, refl, ap, sym, ◌∙◌, arith, inl, inr, Bool, Bool-cases, Option, some, none,
  List, leb, >>?-eq-some,
}
use mathlib.Core.Path.{subst}
use mathlib.Core.Option
use minidump2core.Model.Align.{checked_add}
use minidump2core.Model.Architecture.{Architecture}
use minidump2core.RustMinidump.Streams.{FileSystem, MinidumpModule}
use minidump2core.RustMinidump.ElfFile.{
  checked_sub, read_word, phdr_table, elf_class_of, PhdrTable, Vaddrs, scan_vaddrs, load_segment,
  phdr_segment,
}
use minidump2core.RustMinidump.ElfFile.Headers.{
  Entry, entries_from, first_vaddr, last_vaddr, none_found, scan_vaddrs-entries_from,
}
use minidump2core.RustMinidump.ElfFile.Auxv.{first_on_disk, auxv_in, build_synthetic_auxv}
use minidump2core.RustMinidump.ElfFile.Auxv.Executable.{IsFirstOnDisk, first_on_disk-IsFirstOnDisk}
use minidump2core.RustMinidump.ElfFile.Auxv.Entries.{
  Holds, word_of, encode_auxv-Holds, checked_add-some,
}

-- What AT_PHDR is: the moved address of PT_PHDR, or, in a file that has none, the moved file offset.
pub data IsAtPhdr (bias : ℕ) (phdr_vaddr : Option ℕ) (e_phoff at_phdr : ℕ) : Type 0 where
  relocated :
      (v : ℕ) → phdr_vaddr ≡ some v → at_phdr ≡ bias + v → IsAtPhdr bias phdr_vaddr e_phoff at_phdr
  no_header :
      phdr_vaddr ≡ none → at_phdr ≡ bias + e_phoff → IsAtPhdr bias phdr_vaddr e_phoff at_phdr

-- The file is ELF of the target's class, its program headers lie in it, and the vector has AT_PHDR
-- and the address of the entry point, both moved by what the base lies above the first load address.
pub record IsAuxvOf (arch : Architecture) (bytes : List ℕ) (exe_base : ℕ) (out : List ℕ)
    : Type 0 where
  pub is_64 : Bool
  pub table : PhdrTable
  pub entries : List Entry
  pub first_load : ℕ
  pub e_entry : ℕ
  pub at_phdr : ℕ
  pub class : elf_class_of arch bytes ≡ some is_64
  pub table_read : phdr_table is_64 bytes ≡ some table
  pub entries_read : entries_from is_64 bytes table table.e_phnum 0 ≡ some entries
  pub first_found : first_vaddr load_segment entries ≡ some first_load
  pub entry_read : read_word is_64 bytes 24 24 ≡ some e_entry
  pub above : first_load ≤ exe_base
  pub phdr_lem :
      IsAtPhdr (exe_base - first_load) (last_vaddr phdr_segment entries) table.e_phoff at_phdr
  pub holds : Holds (word_of is_64) at_phdr (exe_base - first_load + e_entry) out

IsAtPhdr-get_or :
    (bias : ℕ) (found : Option ℕ) (e_phoff at_phdr : ℕ)
    → at_phdr ≡ bias + Option.get_or found e_phoff
    → IsAtPhdr bias found e_phoff at_phdr
IsAtPhdr-get_or bias (some v) e_phoff at_phdr e = relocated v refl e
IsAtPhdr-get_or bias none e_phoff at_phdr e = no_header refl e

checked_sub-some : (a b c : ℕ) → checked_sub a b ≡ some c → (b ≤ a) × (c ≡ a - b)
checked_sub-some a b c e = elim (Bool-cases (leb b a)) [
  | inl t ↦ (ground (arith, t), ground (arith, t))
  | inr f ↦ absurd (ground (arith, f))
]

scanned :
    (is_64 : Bool) (bytes : List ℕ) (table : PhdrTable) (s : Vaddrs)
    → scan_vaddrs phdr_segment is_64 bytes table ≡ some s
    → (es : List Entry) × (entries_from is_64 bytes table table.e_phnum 0 ≡ some es)
      × (none_found phdr_segment es ≡ s)
scanned is_64 bytes table s e =
    let (es, t, e1) =
      >>?-eq-some (entries_from is_64 bytes table table.e_phnum 0) _
        (sym (scan_vaddrs-entries_from phdr_segment is_64 bytes table (omega arith)) ∙ e) in
    (es, t, Option.some-injective _ _ e1)

auxv_in-IsAuxvOf :
    (arch : Architecture) (bytes : List ℕ) (exe_base : ℕ) (out : List ℕ)
    → auxv_in arch bytes exe_base ≡ some out
    → IsAuxvOf arch bytes exe_base out
unfolding auxv_in
auxv_in-IsAuxvOf arch bytes exe_base out e =
    let (is_64, a, e1) = >>?-eq-some (elf_class_of arch bytes) _ e in
    let (e_entry, b, e2) = >>?-eq-some (read_word is_64 bytes 24 24) _ e1 in
    let (table, c, e3) = >>?-eq-some (phdr_table is_64 bytes) _ e2 in
    let (s, d, e4) = >>?-eq-some (scan_vaddrs phdr_segment is_64 bytes table) _ e3 in
    let (first, f, e5) = >>?-eq-some s.first_load _ e4 in
    let (load_bias, g, e6) = >>?-eq-some (checked_sub exe_base first) _ e5 in
    let (at_phdr, h, e7) =
      >>?-eq-some (checked_add load_bias (Option.get_or s.wanted table.e_phoff)) _ e6 in
    let (at_entry, i, e8) = >>?-eq-some (checked_add load_bias e_entry) _ e7 in
    let (es, t, same) = scanned is_64 bytes table s d in
    let bias = checked_sub-some exe_base first load_bias g in
    let phdr = checked_add-some load_bias (Option.get_or s.wanted table.e_phoff) at_phdr h in
    let entry = checked_add-some load_bias e_entry at_entry i in
    record {
      is_64 = is_64;
      table = table;
      entries = es;
      first_load = first;
      e_entry = e_entry;
      class = a;
      table_read = c;
      entries_read = t;
      first_found = ap (λ (v : Vaddrs). v.first_load) same ∙ f;
      entry_read = b;
      above = bias.0;
      at_phdr = at_phdr;
      phdr_lem =
          IsAtPhdr-get_or (exe_base - first) (last_vaddr phdr_segment es) table.e_phoff at_phdr (
            phdr.0
            ∙ ap (λ (n : ℕ). n + Option.get_or s.wanted table.e_phoff) bias.1
            ∙ ap (λ (v : Vaddrs). exe_base - first + Option.get_or v.wanted table.e_phoff)
                (sym same));
      holds =
          subst (λ (q : ℕ). Holds (word_of is_64) at_phdr q out)
            (entry.0 ∙ ap (λ (n : ℕ). n + e_entry) bias.1)
            (encode_auxv-Holds is_64 at_phdr at_entry out phdr.1 entry.1 e8);
    }

-- An auxiliary vector that `build_synthetic_auxv` returns is made from the file of the first module
-- on disk that is no library: every module in front of it has a base name of the form `.so`, or `.so`
-- and versions, or is not on disk, and it has no such name and is on disk. A reader finds in the
-- vector, in words of the file's class, AT_PHDR, AT_ENTRY and no other tag in front of AT_NULL. With
-- the bias, what the module's base lies above the file's first load address, AT_ENTRY is the bias
-- plus the entry point, and AT_PHDR is the bias plus the address of the last PT_PHDR, which is where
-- the headers are. In a file without a PT_PHDR it is the bias plus their offset in the file, which is
-- not claimed to be where they are.
pub build_synthetic_auxv-IsAuxvOf :
    (fs : FileSystem) (arch : Architecture) (modules : List MinidumpModule) (out : List ℕ)
    → build_synthetic_auxv fs arch modules ≡ some out
    → (m : MinidumpModule) × (bytes : List ℕ) × IsFirstOnDisk fs modules m
      × (fs.read_file m.name ≡ some bytes)
      × IsAuxvOf arch bytes m.base_of_image out
unfolding build_synthetic_auxv
build_synthetic_auxv-IsAuxvOf fs arch modules out e =
    let (m, a, e1) = >>?-eq-some (first_on_disk fs modules) _ e in
    let (bytes, b, e2) = >>?-eq-some (fs.read_file m.name) _ e1 in
    (
      m,
      bytes,
      first_on_disk-IsFirstOnDisk fs modules m a,
      b,
      auxv_in-IsAuxvOf arch bytes m.base_of_image out e2,
    )
