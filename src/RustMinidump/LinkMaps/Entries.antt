-- ===== src/RustMinidump/LinkMaps/Entries.antt =====
-- `parse_dso_debug` on a file with an array of link-map entries.
use minidump2core.Prelude.{
  ℕ, zero, suc, ◌+◌, ◌*◌, ◌^◌, ◌<◌, ◌≤◌, ◌≡◌, ◌≢◌, ◌⊎◌, refl, ap, arith, inl, inr, Bool, true,
  false, some, List, [], ◌∷◌, length, drop, ltb, ◌==◌, if◌then◌else◌, map,
}
use mathlib.Core.Path.{subst}
use minidump2core.Error.{ok}
use minidump2core.Model.Align.{checked_add}
use minidump2core.Model.Architecture.{Architecture, is_64bit}
use minidump2core.RustMinidump.Streams.{value, DebugHeader, RawLinkMap, Layouts, Formats}
use minidump2core.RustMinidump.LinkMaps.{
  link_map_entry, link_map_loop, invalid_md_rva, read_link_map, read_link_map_64, read_link_map_32,
  dso_debug_of, parse_with, parse_dso_debug,
}

module _ (formats : Formats) (layouts : Layouts) (full_file : List ℕ) (map_rva : ℕ) where
  -- The entries from the one with the index `i`, as the scroll crate reads them.
  abbrev pub EntriesAt : ℕ → List RawLinkMap → Type 0
  EntriesAt i [] = Unit
  EntriesAt i (r ∷ rs) =
      (layouts.pread_link_map full_file (map_rva + i * layouts.size_of_link_map) ≡ value r)
      × EntriesAt (suc i) rs

  -- All the entries are there, or the file ends inside the one behind them.
  abbrev pub Complete : ℕ → ℕ → ℕ → Type 0
  Complete i count n =
      (count ≡ n) ⊎ (length full_file < map_rva + (i + count + 1) * layouts.size_of_link_map)

  module _ (bound : length full_file < 2 ^ 64) where
    link_map_loop-map :
        (rs : List RawLinkMap) (n i : ℕ)
        → EntriesAt i rs
        → map_rva + (i + length rs) * layouts.size_of_link_map ≤ length full_file
        → length rs ≤ n
        → Complete i (length rs) n
        → link_map_loop formats layouts full_file map_rva n i
          ≡ ok (map (link_map_entry formats full_file) rs)
    unfolding link_map_loop
    link_map_loop-map [] zero i h inside k c = refl
    link_map_loop-map (r ∷ rs) zero i h inside k c = absurd (omega arith)
    link_map_loop-map [] (suc n) i h inside k (inl e) = absurd (omega (arith, e))
    link_map_loop-map [] (suc n) i h inside k (inr e) =
        let at : map_rva + (i + 0) * layouts.size_of_link_map
            ≡ map_rva + i * layouts.size_of_link_map =
          ap (λ j. map_rva + j * layouts.size_of_link_map) (omega arith) in
        let next : (i + 0 + 1) * layouts.size_of_link_map
            ≡ i * layouts.size_of_link_map + layouts.size_of_link_map =
          grind arith in
        let fits : checked_add map_rva (i * layouts.size_of_link_map)
            ≡ some (map_rva + i * layouts.size_of_link_map) =
          ground (arith, bound, inside, at) in
        let out : ltb (length full_file)
              (map_rva + i * layouts.size_of_link_map + layouts.size_of_link_map)
            ≡ true =
          ground (arith, e, next) in
        rw (fits, link_map_loop) (rw out refl)
    link_map_loop-map (r ∷ rs) (suc n) i h inside k c =
        let next : (suc i) * layouts.size_of_link_map
            ≡ i * layouts.size_of_link_map + layouts.size_of_link_map =
          grind arith in
        let more : (i + length (r ∷ rs)) * layouts.size_of_link_map
            ≡ suc i * layouts.size_of_link_map + length rs * layouts.size_of_link_map =
          grind arith in
        let same : i + suc (length rs) ≡ suc i + length rs = omega arith in
        let fits : checked_add map_rva (i * layouts.size_of_link_map)
            ≡ some (map_rva + i * layouts.size_of_link_map) =
          ground (arith, bound, inside, more, next) in
        let within : ltb (length full_file)
              (map_rva + i * layouts.size_of_link_map + layouts.size_of_link_map)
            ≡ false =
          ground (arith, inside, more, next) in
        let rest =
          link_map_loop-map rs n (suc i) h.1
            (subst (λ j. map_rva + j * layouts.size_of_link_map ≤ length full_file) same inside)
            (omega (arith, k)) (later c) in
        rw (fits, link_map_loop) (rw within (rw h.0 (rw rest refl)))
      where
        later : Complete i (suc (length rs)) (suc n) → Complete (suc i) (length rs) n
        later (inl e) = inl (omega (arith, e))
        later (inr e) =
            inr (
              subst (λ j. length full_file < map_rva + j * layouts.size_of_link_map) (omega arith)
                e)

    pub read_link_map-map :
        (rs : List RawLinkMap) (n : ℕ)
        → map_rva ≢ invalid_md_rva
        → EntriesAt 0 rs
        → map_rva + length rs * layouts.size_of_link_map ≤ length full_file
        → length rs ≤ n
        → Complete 0 (length rs) n
        → read_link_map formats layouts full_file map_rva n
          ≡ ok (map (link_map_entry formats full_file) rs)
    unfolding read_link_map
    read_link_map-map rs n valid h inside k c =
        let ordinary : (map_rva == invalid_md_rva) ≡ false = ground (arith, valid) in
        rw ordinary (
          link_map_loop-map rs n 0 h
            (subst (λ j. map_rva + j * layouts.size_of_link_map ≤ length full_file) (omega arith)
              inside)
            k c)

-- The layouts of the target.
abbrev pub layouts_of : Formats → Architecture → Layouts
layouts_of formats arch = if is_64bit arch then formats.layouts_64 else formats.layouts_32

-- Where the stream has a whole header and the header's link map has the entries `rs`, all that it
-- counts or as many as the file has whole, `parse_dso_debug` returns the header's fields, the bytes
-- behind the header as the dynamic section, and those entries in order, each with its name or an empty
-- one; the link map's offset is not the mark for none, and the file is shorter than 2 ^ 64 bytes.
pub parse_dso_debug-map :
    (formats : Formats) (arch : Architecture) (bytes full_file : List ℕ) (header : DebugHeader)
    (rs : List RawLinkMap)
    → length full_file < 2 ^ 64
    → (layouts_of formats arch).size_of_dso_debug ≤ length bytes
    → (layouts_of formats arch).pread_dso_debug bytes 0 ≡ value header
    → header.map ≢ invalid_md_rva
    → EntriesAt formats (layouts_of formats arch) full_file header.map 0 rs
    → header.map + length rs * (layouts_of formats arch).size_of_link_map ≤ length full_file
    → length rs ≤ header.dso_count
    → Complete formats (layouts_of formats arch) full_file header.map 0 (length rs) header.dso_count
    → parse_dso_debug formats arch bytes full_file
      ≡ ok (
          dso_debug_of header
            (drop (layouts_of formats arch).size_of_dso_debug bytes)
            (map (link_map_entry formats full_file) rs))
unfolding parse_dso_debug read_link_map_64 read_link_map_32
parse_dso_debug-map formats arch bytes full_file header rs bound whole e valid h inside k c =
    go (is_64bit arch) whole e h inside c
  where
    with_layouts :
        (layouts : Layouts)
        → layouts.size_of_dso_debug ≤ length bytes
        → layouts.pread_dso_debug bytes 0 ≡ value header
        → EntriesAt formats layouts full_file header.map 0 rs
        → header.map + length rs * layouts.size_of_link_map ≤ length full_file
        → Complete formats layouts full_file header.map 0 (length rs) header.dso_count
        → parse_with formats layouts (read_link_map formats layouts) bytes full_file
          ≡ ok (
              dso_debug_of header
                (drop layouts.size_of_dso_debug bytes)
                (map (link_map_entry formats full_file) rs))
    with_layouts layouts w r h inside c =
        let long : ltb (length bytes) layouts.size_of_dso_debug ≡ false = ground (arith, w) in
        rw long (
          rw r (
            rw
              (read_link_map-map formats layouts full_file header.map bound rs header.dso_count
                valid h inside k c)
              refl))

    go :
        (wide : Bool)
        → (if wide then formats.layouts_64 else formats.layouts_32).size_of_dso_debug ≤ length bytes
        → (if wide then formats.layouts_64 else formats.layouts_32).pread_dso_debug bytes 0
          ≡ value header
        → EntriesAt formats
            (if wide then formats.layouts_64 else formats.layouts_32)
            full_file
            header.map
            0
            rs
        → header.map
            + length rs * (if wide then formats.layouts_64 else formats.layouts_32).size_of_link_map
          ≤ length full_file
        → Complete formats
            (if wide then formats.layouts_64 else formats.layouts_32)
            full_file
            header.map
            0
            (length rs)
            header.dso_count
        → (if wide
            then parse_with formats formats.layouts_64
                (read_link_map formats formats.layouts_64)
                bytes
                full_file
            else parse_with formats formats.layouts_32
                (read_link_map formats formats.layouts_32)
                bytes
                full_file)
          ≡ ok (
              dso_debug_of header
                (drop
                  (if wide then formats.layouts_64 else formats.layouts_32).size_of_dso_debug
                  bytes)
                (map (link_map_entry formats full_file) rs))
    go true w r h inside c = with_layouts formats.layouts_64 w r h inside c
    go false w r h inside c = with_layouts formats.layouts_32 w r h inside c
