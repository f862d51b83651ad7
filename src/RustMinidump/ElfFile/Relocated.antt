-- ===== src/RustMinidump/ElfFile/Relocated.antt =====
-- `elf_dynamic_runtime_addr` against the list of the program headers.
use minidump2core.Prelude.{
  ℕ, ◌+◌, ◌-◌, ◌^◌, ◌≡◌, refl, arith, Bool, Option, none, some, List, ltb, leb, if◌then◌else◌,
  ◌>>?◌,
}
use minidump2core.Model.Align.{checked_add}
use minidump2core.Model.Architecture.{Architecture}
use minidump2core.RustMinidump.ElfFile.{
  checked_sub, phdr_table, elf_class_of, PhdrTable, load_segment, dynamic_segment, scan_vaddrs,
  dynamic_addr_in,
}
use minidump2core.RustMinidump.ElfFile.Headers.{
  Entry, entries_from, entries_of, first_vaddr, last_vaddr, none_found, scan_vaddrs-entries_from,
}

-- The address at which `vaddr` stands where the first load address stands at `load_base`.
abbrev pub relocated : ℕ → Option ℕ → Option ℕ → Option ℕ
relocated load_base (some first) (some vaddr) =
    if leb first load_base
    then (if ltb (load_base - first + vaddr) (2 ^ 64)
        then some (load_base - first + vaddr)
        else none)
    else none
relocated load_base (some first) none = none
relocated load_base none vaddr = none

-- `elf_dynamic_runtime_addr` returns for the bytes of a file the address of its last PT_DYNAMIC
-- segment, moved by what the load address lies above the address of the first PT_LOAD segment, and
-- nothing where the file is not ELF of the target's class, an entry of the table is not in the file, a
-- segment is missing or the address is none of 64 bits.
pub dynamic_addr_in-relocated :
    (arch : Architecture) (bytes : List ℕ) (load_base : ℕ)
    → dynamic_addr_in arch bytes load_base ≡ (
        entries_of arch bytes >>? λ es.
        relocated load_base (first_vaddr load_segment es) (last_vaddr dynamic_segment es))
unfolding dynamic_addr_in entries_of
dynamic_addr_in-relocated arch bytes load_base = classes (elf_class_of arch bytes)
  where
    ends :
        (es : List Entry) (first wanted : Option ℕ)
        → (first >>? λ first_load_vaddr. checked_sub load_base first_load_vaddr >>? λ load_bias.
            wanted >>? λ dyn_vaddr. checked_add load_bias dyn_vaddr)
          ≡ relocated load_base first wanted
    ends es none wanted = refl
    ends es (some first) none = ground arith
    ends es (some first) (some vaddr) = ground arith

    entries :
        (r : Option (List Entry))
        → ((r >>? λ es. some (none_found dynamic_segment es)) >>? λ s.
            s.first_load >>? λ first_load_vaddr.
            checked_sub load_base first_load_vaddr >>? λ load_bias.
            s.wanted >>? λ dyn_vaddr. checked_add load_bias dyn_vaddr)
          ≡ (r >>? λ es.
              relocated load_base (first_vaddr load_segment es) (last_vaddr dynamic_segment es))
    entries none = refl
    entries (some es) = ends es (first_vaddr load_segment es) (last_vaddr dynamic_segment es)

    tables :
        (is_64 : Bool) (t : Option PhdrTable)
        → (t >>? λ table. scan_vaddrs dynamic_segment is_64 bytes table >>? λ s.
            s.first_load >>? λ first_load_vaddr.
            checked_sub load_base first_load_vaddr >>? λ load_bias.
            s.wanted >>? λ dyn_vaddr. checked_add load_bias dyn_vaddr)
          ≡ ((t >>? λ table. entries_from is_64 bytes table table.e_phnum 0) >>? λ es.
              relocated load_base (first_vaddr load_segment es) (last_vaddr dynamic_segment es))
    tables is_64 none = refl
    tables is_64 (some table) =
        rw (scan_vaddrs-entries_from dynamic_segment is_64 bytes table (omega arith))
          (entries (entries_from is_64 bytes table table.e_phnum 0))

    classes :
        (c : Option Bool)
        → (c >>? λ is_64. phdr_table is_64 bytes >>? λ table.
            scan_vaddrs dynamic_segment is_64 bytes table >>? λ s.
            s.first_load >>? λ first_load_vaddr.
            checked_sub load_base first_load_vaddr >>? λ load_bias.
            s.wanted >>? λ dyn_vaddr. checked_add load_bias dyn_vaddr)
          ≡ ((c >>? λ is_64.
                phdr_table is_64 bytes >>? λ table. entries_from is_64 bytes table table.e_phnum 0)
              >>? λ es.
                  relocated load_base (first_vaddr load_segment es) (last_vaddr dynamic_segment es))
    classes none = refl
    classes (some is_64) = tables is_64 (phdr_table is_64 bytes)
