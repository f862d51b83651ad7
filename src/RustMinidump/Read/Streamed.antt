-- ===== src/RustMinidump/Read/Streamed.antt =====
-- The mapping table after the streams of Linux.
use minidump2core.Prelude.{
  ℕ, ◌%◌, ◌≡◌, refl, ap, sym, ◌∙◌, arith, inl, inr, true, Bool-cases, Option, none, some, List, [],
  ◌∷◌, ◌==◌, All,
}
use mathlib.Core.Path.{subst}
use minidump2core.Error.{ok, ◌>>=◌, >>=-eq-ok, ok-injective}
use minidump2core.Bytes.{IsU64}
use minidump2core.LinuxMaps.{looks_like_linux_maps, parse_linux_maps}
use minidump2core.LinuxMaps.Sound.{IsFileMapping, parse_linux_maps-IsFileMapping}
use minidump2core.Text.Split.{starts_with}
use minidump2core.Model.Mapping.{Mapping, permissions, new_mapping, with_file}
use minidump2core.Model.ProcessInfo.{slash}
use minidump2core.Model.Process.{insert_mapping, set_auxv, apply_cmdline}
use minidump2core.Augment.WellFormed.{WellFormed, IsMapped}
use minidump2core.NoteSegment.{Process}
use minidump2core.RustMinidump.Streams.{
  Minidump, MapInfo, MinidumpModule, Stream, found, failed, linux_auxv,
}
use minidump2core.RustMinidump.Modules.Table.{HasPage, insert-WellFormed, new_mapping-IsMapped}
use minidump2core.RustMinidump.Read.{
  mapping_of_info, cons_some, mappings_from_minidump_linux_maps, insert_mappings, ingest_maps,
  ingest_auxv, ingest_cmdline,
}

module _ (page_size : ℕ) where
  abbrev pub Starts : Mapping → Type 0
  Starts m = m.start_address % page_size ≡ 0

  -- The ranges of the dump's maps and modules start on pages; a maps entry has a 64-bit end.
  pub record HasPages (dump : Minidump) : Type 0 where
    pub maps_start :
        (infos : List MapInfo)
        → dump.linux_maps ≡ found infos
        → All (λ (i : MapInfo). (i.start % page_size ≡ 0) × IsU64 i.end_address) infos
    pub text_starts :
        (bytes : List ℕ) (ms : List Mapping)
        → dump.raw_stream linux_auxv ≡ found bytes
        → looks_like_linux_maps bytes ≡ true
        → parse_linux_maps bytes ≡ ok ms
        → All (λ (m : Mapping). m.start_address % page_size ≡ 0) ms
    pub modules_start :
        (ms : List MinidumpModule) → dump.module_list ≡ found ms → All (HasPage page_size) ms

  abbrev IsEntry : Mapping → Type 0
  IsEntry m = IsMapped page_size m.start_address m

  insert_mappings-WellFormed :
      (ms : List Mapping) (p : Process)
      → All IsEntry ms
      → WellFormed page_size p.mappings
      → WellFormed page_size (insert_mappings ms p).mappings
  unfolding insert_mappings insert_mapping
  insert_mappings-WellFormed [] p h w = w
  insert_mappings-WellFormed (m ∷ ms) p h w =
      insert_mappings-WellFormed ms (insert_mapping m p) h.1
        (insert-WellFormed page_size m p.mappings h.0 w)

  mapping_of_info-IsEntry :
      (info : MapInfo) (name : Option (List ℕ)) (m : Mapping)
      → info.start % page_size ≡ 0
      → IsU64 info.end_address
      → mapping_of_info info name ≡ ok (some m)
      → IsEntry m
  unfolding mapping_of_info
  mapping_of_info-IsEntry info none m h b e = absurd (ground arith)
  mapping_of_info-IsEntry info (some name) m h b e =
      elim (Bool-cases (starts_with (λ c. c == slash) name)) [
        | inl t ↦
            let made : (new_mapping info.start info.end_address
                    (permissions info.is_readable info.is_writable info.is_executable)
                  >>= λ mapping. ok (some (with_file mapping name info.offset)))
                ≡ ok (some m) =
              sym (rw (t, mapping_of_info) refl) ∙ e in
            let (mapping, s, e1) = >>=-eq-ok (new_mapping info.start info.end_address _) _ made in
            let same : with_file mapping name info.offset ≡ m = ground (arith, e1) in
            subst IsEntry same (
              new_mapping-IsMapped page_size info.start info.end_address info.offset mapping name
                info.is_readable info.is_writable info.is_executable h b s)
        | inr f ↦ absurd (ground (arith, f))
      ]

  cons_some-All :
      (o : Option Mapping) (ms : List Mapping)
      → ((m : Mapping) → o ≡ some m → IsEntry m)
      → All IsEntry ms
      → All IsEntry (cons_some o ms)
  cons_some-All none ms h k = k
  cons_some-All (some m) ms h k = (h m refl, k)

  mappings_from-IsEntry :
      (infos : List MapInfo) (ms : List Mapping)
      → All (λ (i : MapInfo). (i.start % page_size ≡ 0) × IsU64 i.end_address) infos
      → mappings_from_minidump_linux_maps infos ≡ ok ms
      → All IsEntry ms
  unfolding mappings_from_minidump_linux_maps
  mappings_from-IsEntry [] ms h e = subst (All IsEntry) (ok-injective e) tt
  mappings_from-IsEntry (info ∷ infos) ms h e =
      let (first, s, e1) = >>=-eq-ok (mapping_of_info info info.pathname) _ e in
      let (later, t, e2) = >>=-eq-ok (mappings_from_minidump_linux_maps infos) _ e1 in
      subst (All IsEntry) (ok-injective e2) (
        cons_some-All first later
          (λ m r. mapping_of_info-IsEntry info info.pathname m h.0.0 h.0.1 (s ∙ ap ok r))
          (mappings_from-IsEntry infos later h.1 t))

  text-IsEntry : (ms : List Mapping) → All IsFileMapping ms → All Starts ms → All IsEntry ms
  text-IsEntry [] f s = tt
  text-IsEntry (m ∷ ms) f s = (
    record { keyed = refl; aligned = s.0; ranged = f.0.not_empty; bounded = f.0.end_bound },
    text-IsEntry ms f.1 s.1,
  )

  pub ingest_maps-WellFormed :
      (stream : Stream (List MapInfo)) (p q : Process)
      → ((infos : List MapInfo)
          → stream ≡ found infos
          → All (λ (i : MapInfo). (i.start % page_size ≡ 0) × IsU64 i.end_address) infos)
      → WellFormed page_size p.mappings
      → ingest_maps stream p ≡ ok q
      → WellFormed page_size q.mappings
  ingest_maps-WellFormed (failed error) p q h w e =
      subst (λ (r : Process). WellFormed page_size r.mappings) (ok-injective e) w
  ingest_maps-WellFormed (found infos) p q h w e =
      let (ms, s, e1) = >>=-eq-ok (mappings_from_minidump_linux_maps infos) _ e in
      subst (λ (r : Process). WellFormed page_size r.mappings) (ok-injective e1)
        (insert_mappings-WellFormed ms p (mappings_from-IsEntry infos ms (h infos refl) s) w)

  pub ingest_auxv-WellFormed :
      (auxv : Option (List ℕ)) (p q : Process)
      → ((bytes : List ℕ) (ms : List Mapping)
          → auxv ≡ some bytes
          → looks_like_linux_maps bytes ≡ true
          → parse_linux_maps bytes ≡ ok ms
          → All Starts ms)
      → WellFormed page_size p.mappings
      → ingest_auxv auxv p ≡ ok q
      → WellFormed page_size q.mappings
  unfolding set_auxv
  ingest_auxv-WellFormed none p q h w e =
      subst (λ (r : Process). WellFormed page_size r.mappings) (ok-injective e) w
  ingest_auxv-WellFormed (some bytes) p q h w e = elim (Bool-cases (looks_like_linux_maps bytes)) [
    | inl t ↦
        let parsed : (parse_linux_maps bytes >>= λ mappings. ok (insert_mappings mappings p))
            ≡ ok q =
          sym (rw t refl) ∙ e in
        let (ms, s, e1) = >>=-eq-ok (parse_linux_maps bytes) _ parsed in
        subst (λ (r : Process). WellFormed page_size r.mappings) (ok-injective e1)
          (insert_mappings-WellFormed ms p
            (text-IsEntry ms (parse_linux_maps-IsFileMapping bytes ms s) (h bytes ms refl t s)) w)
    | inr f ↦
        let kept : ok (set_auxv bytes p) ≡ ok q = sym (rw f refl) ∙ e in
        subst (λ (r : Process). WellFormed page_size r.mappings) (ok-injective kept) w
  ]

  pub ingest_cmdline-WellFormed :
      (cmdline : Option (List ℕ)) (p : Process)
      → WellFormed page_size p.mappings
      → WellFormed page_size (ingest_cmdline cmdline p).mappings
  unfolding apply_cmdline
  ingest_cmdline-WellFormed none p w = w
  ingest_cmdline-WellFormed (some cmdline) p w = w
