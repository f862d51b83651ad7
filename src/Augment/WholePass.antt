-- ===== src/Augment/WholePass.antt =====
-- The mapping table that `augment_process` of src/augment.rs leaves.
use minidump2core.Prelude.{ℕ, ◌<◌, List, [], ◌∷◌, arith}
use minidump2core.Model.Mapping.{default_page_size}
use minidump2core.Model.Process.{ThreadSnapshot, CrashedProcess}
use minidump2core.Augment.{
  Mappings, is_empty, add_data_to_mapping, add_stacks, add_dynamic, add_link_map, augment_process,
}
use minidump2core.Augment.WellFormed.{
  WellFormed, attempt-WellFormed, then-WellFormed, if-WellFormed, add_data_to_mapping-WellFormed,
}
use minidump2core.Augment.LinkMap.{link_map_addr, build_link_map_blob}
use minidump2core.Augment.Dynamic.{patch_dt_debug}

page_pos : 0 < default_page_size
page_pos = omega arith

added :
    (ms : Mappings) (bytes : List ℕ) (address : ℕ)
    → WellFormed default_page_size ms
    → WellFormed default_page_size (add_data_to_mapping ms bytes address default_page_size).0
added = add_data_to_mapping-WellFormed default_page_size page_pos

module _ {C : Type 0} where
  stacks-WellFormed :
      (ts : List (ThreadSnapshot C)) (ms : Mappings)
      → WellFormed default_page_size ms
      → WellFormed default_page_size (add_stacks ts ms).0
  unfolding add_stacks
  stacks-WellFormed [] ms w = w
  stacks-WellFormed (t ∷ ts) ms w =
      then-WellFormed default_page_size page_pos _ (add_stacks ts)
        (if-WellFormed default_page_size page_pos (is_empty t.stack) _ _ w
          (added ms t.stack t.stack_address w))
        (stacks-WellFormed ts)

  dynamic-WellFormed :
      (p : CrashedProcess C) (ms : Mappings)
      → WellFormed default_page_size ms
      → WellFormed default_page_size (add_dynamic p ms).0
  unfolding add_dynamic
  dynamic-WellFormed p ms w =
      let dso = p.dso_debug in
      if-WellFormed default_page_size page_pos _ _ _
        (attempt-WellFormed default_page_size page_pos ms
          (patch_dt_debug p.architecture dso.dynamic_data link_map_addr) _ w
          (λ bytes e. added ms bytes dso.dynamic w))
        w

  link_map-WellFormed :
      (p : CrashedProcess C) (ms : Mappings)
      → WellFormed default_page_size ms
      → WellFormed default_page_size (add_link_map p ms).0
  unfolding add_link_map
  link_map-WellFormed p ms w =
      if-WellFormed default_page_size page_pos _ _ _
        (attempt-WellFormed default_page_size page_pos ms
          (build_link_map_blob p.architecture p.dso_debug p.signatures) _ w
          (λ blob e.
            then-WellFormed default_page_size page_pos _ (add_dynamic p)
              (added ms blob link_map_addr w) (dynamic-WellFormed p)))
        w

  -- The whole pass, the stacks, the link map and the dynamic section, leaves a well-formed mapping
  -- table well-formed, also where it stops with an error.
  pub augment_process-WellFormed :
      (p : CrashedProcess C)
      → WellFormed default_page_size p.mappings
      → WellFormed default_page_size ((augment_process p).0).mappings
  unfolding augment_process
  augment_process-WellFormed p w =
      then-WellFormed default_page_size page_pos (add_stacks p.threads p.mappings) (add_link_map p)
        (stacks-WellFormed p.threads p.mappings w) (link_map-WellFormed p)
