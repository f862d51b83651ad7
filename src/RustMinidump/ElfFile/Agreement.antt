-- ===== src/RustMinidump/ElfFile/Agreement.antt =====
-- `read_executable_dynamic` and `elf_dynamic_runtime_addr` on one file.
use minidump2core.Prelude.{
  ℕ, zero, suc, ◌+◌, ◌^◌, ◌≡◌, refl, ap, ◌∙◌, arith, inl, inr, Bool, true, Bool-cases, Option, none,
  some, List, length, ltb, leb, ◌==◌, if◌then◌else◌, >>?-eq-some, >>?-some,
}
use mathlib.Core.Option
use minidump2core.Model.Align.{checked_add}
use minidump2core.Model.Architecture.{Architecture}
use minidump2core.RustMinidump.Streams.{FileSystem}
use minidump2core.RustMinidump.ElfFile.{
  checked_sub, checked_mul, ensure, read_u32_le, read_word, phdr_table, elf_class_of, PhdrTable,
  scan, load_segment, dynamic_segment, Vaddrs, note_vaddr, vaddr_body, no_vaddrs, scan_vaddrs,
  dynamic_addr_in,
}
use minidump2core.RustMinidump.ElfFile.Runtime.{
  locate, elf_dynamic_runtime_addr, Segment, DynamicScan, note_segment, segment_body, no_segments,
  ExecutableDynamic, executable_dynamic_in, read_executable_dynamic,
}

abbrev vaddr_of : Option Segment → Option ℕ
vaddr_of none = none
vaddr_of (some segment) = some segment.p_vaddr

-- The state of the longer loop as one of the shorter.
abbrev forget : DynamicScan → Vaddrs
forget s = record { first_load = s.first_load; wanted = vaddr_of s.dyn_info }

forget-note_segment :
    (p_type : ℕ) (segment : Segment) (s : DynamicScan)
    → note_vaddr dynamic_segment p_type segment.p_vaddr (forget s)
      ≡ forget (note_segment p_type segment s)
forget-note_segment p_type segment s = elim (Bool-cases (p_type == load_segment)) [
  | inl t ↦ rw t refl
  | inr f ↦ elim (Bool-cases (p_type == dynamic_segment)) [
    | inl t ↦ rw f (rw t refl)
    | inr g ↦ rw f (rw g refl)
  ]
]

body-forget :
    (is_64 : Bool) (bytes : List ℕ) (o : ℕ) (s later : DynamicScan)
    → segment_body is_64 bytes o s ≡ some later
    → vaddr_body dynamic_segment is_64 bytes o (forget s) ≡ some (forget later)
unfolding segment_body vaddr_body
body-forget is_64 bytes o s later e =
    let (p_type, a, e1) = >>?-eq-some (read_u32_le bytes o) _ e in
    let (p_offset, b, e2) = >>?-eq-some (read_word is_64 bytes (o + 8) (o + 4)) _ e1 in
    let (p_vaddr, c, e3) = >>?-eq-some (read_word is_64 bytes (o + 16) (o + 8)) _ e2 in
    let (p_filesz, d, e4) = >>?-eq-some (read_word is_64 bytes (o + 32) (o + 16)) _ e3 in
    >>?-some (read_u32_le bytes o) _ a (
      >>?-some (read_word is_64 bytes (o + 16) (o + 8)) _ c (
        ap some (
          forget-note_segment p_type
            (record { p_offset = p_offset; p_vaddr = p_vaddr; p_filesz = p_filesz }) s)
        ∙ ap (Option.map forget) e4))

scan-forget :
    (is_64 : Bool) (bytes : List ℕ) (table : PhdrTable) (n i : ℕ) (s last : DynamicScan)
    → scan (segment_body is_64 bytes) table n i s ≡ some last
    → scan (vaddr_body dynamic_segment is_64 bytes) table n i (forget s) ≡ some (forget last)
unfolding scan
scan-forget is_64 bytes table zero i s last e = ap (Option.map forget) e
scan-forget is_64 bytes table (suc n) i s last e =
    let (distance, a, e1) = >>?-eq-some (checked_mul i table.e_phentsize) _ e in
    let (o, b, e2) = >>?-eq-some (checked_add table.e_phoff distance) _ e1 in
    let (later, c, e3) = >>?-eq-some (segment_body is_64 bytes o s) _ e2 in
    let step = body-forget is_64 bytes o s later c in
    >>?-some (checked_mul i table.e_phentsize) _ a (
      >>?-some (checked_add table.e_phoff distance) _ b (
        >>?-some (vaddr_body dynamic_segment is_64 bytes o (forget s)) _ step
          (scan-forget is_64 bytes table n (suc i) later last e3)))

checked_add_comm : (a b : ℕ) → checked_add a b ≡ checked_add b a
checked_add_comm a b = ap (λ n. if ltb n (2 ^ 64) then some n else none) (omega arith)

pub executable_dynamic_in-agrees :
    (arch : Architecture) (bytes : List ℕ) (load_base : ℕ) (exe : ExecutableDynamic)
    → executable_dynamic_in arch bytes load_base ≡ some exe
    → dynamic_addr_in arch bytes load_base ≡ some exe.runtime_dynamic_addr
unfolding executable_dynamic_in dynamic_addr_in scan_vaddrs
executable_dynamic_in-agrees arch bytes load_base exe e =
    let (is_64, a, e1) = >>?-eq-some (elf_class_of arch bytes) _ e in
    let (table, b, e2) = >>?-eq-some (phdr_table is_64 bytes) _ e1 in
    let (s, c, e3) =
      >>?-eq-some (scan (segment_body is_64 bytes) table table.e_phnum 0 no_segments) _ e2 in
    let (first, d, e4) = >>?-eq-some s.first_load _ e3 in
    let (segment, f, e5) = >>?-eq-some s.dyn_info _ e4 in
    let (load_bias, g, e6) = >>?-eq-some (checked_sub load_base first) _ e5 in
    let (runtime_dyn, h, e7) = >>?-eq-some (checked_add segment.p_vaddr load_bias) _ e6 in
    let (end_offset, i, e8) = >>?-eq-some (checked_add segment.p_offset segment.p_filesz) _ e7 in
    let (inside, j, e9) = >>?-eq-some (ensure (leb end_offset (length bytes))) _ e8 in
    let scanned = scan-forget is_64 bytes table table.e_phnum 0 no_segments s c in
    let biased = >>?-some (checked_sub load_base first) _ g (
      >>?-some (vaddr_of s.dyn_info) _ (ap vaddr_of f) (
        checked_add_comm load_bias segment.p_vaddr
        ∙ h
        ∙ ap (Option.map (λ (x : ExecutableDynamic). x.runtime_dynamic_addr)) e9)) in
    >>?-some (elf_class_of arch bytes) _ a (
      >>?-some (phdr_table is_64 bytes) _ b (
        >>?-some (scan (vaddr_body dynamic_segment is_64 bytes) table table.e_phnum 0 no_vaddrs) _
          scanned (>>?-some s.first_load _ d biased)))

-- Where `read_executable_dynamic` finds the dynamic section of an executable whose file is there,
-- `elf_dynamic_runtime_addr` of the same path and load address is the address that it returns, so the
-- link map's entry of the executable points at the dynamic section that is patched.
pub read_executable_dynamic-agrees :
    (fs : FileSystem) (arch : Architecture) (path : List ℕ) (load_base : ℕ)
    (exe : ExecutableDynamic)
    → fs.metadata_is_ok path ≡ true
    → read_executable_dynamic fs arch path load_base ≡ some exe
    → elf_dynamic_runtime_addr fs arch path load_base ≡ some exe.runtime_dynamic_addr
unfolding read_executable_dynamic elf_dynamic_runtime_addr locate
read_executable_dynamic-agrees fs arch path load_base exe present e =
    let (bytes, a, e1) = >>?-eq-some (fs.read_file path) _ e in
    rw present (rw a (executable_dynamic_in-agrees arch bytes load_base exe e1))
