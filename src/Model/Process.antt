-- ===== src/Model/Process.antt =====
-- `ThreadSnapshot`, `DsoDebug` and `CrashedProcess` of src/model.rs. The type of a CPU context is
-- the minidump crate's, and a parameter here.
use minidump2core.Prelude.{ℕ, Option, none, List, [], ◌∷◌, ◌++◌}
use minidump2core.BTreeMap.{BTreeMap}
use minidump2core.BTreeMap
use minidump2core.Model.Architecture.{Architecture}
use minidump2core.Model.Mapping.{Mapping}
use minidump2core.Model.ProcessInfo.{ProcessInfo, new_info}
use minidump2core.Model.ProcessInfo

pub record ThreadSnapshot (C : Type 0) : Type 0 where
  pub tid : ℕ
  pub stack_address : ℕ
  pub stack : List ℕ
  pub context : Option C

pub record LinkMapEntry : Type 0 where
  pub addr : ℕ
  pub ld : ℕ
  pub name : List ℕ

pub record DsoDebug : Type 0 where
  pub version : ℕ
  pub brk : ℕ
  pub ldbase : ℕ
  pub dynamic : ℕ
  pub link_map : List LinkMapEntry
  pub dynamic_data : List ℕ

-- `DsoDebug::default()`
unfoldable pub no_dso_debug : DsoDebug
no_dso_debug = record {
  version = 0;
  brk = 0;
  ldbase = 0;
  dynamic = 0;
  link_map = [];
  dynamic_data = [];
}

-- `fatal_signal` is an `i32`, kept as its bit pattern below 2 ^ 32.
pub record CrashedProcess (C : Type 0) : Type 0 where
  pub architecture : Architecture
  pub mappings : BTreeMap Mapping
  pub threads : List (ThreadSnapshot C)
  pub auxv : List ℕ
  pub process_info : ProcessInfo
  pub crashing_tid : Option ℕ
  pub exception_context : Option C
  pub fatal_signal : ℕ
  pub dso_debug : DsoDebug
  pub signatures : BTreeMap (List ℕ)

module _ {C : Type 0} where
  -- `CrashedProcess::new`
  unfoldable pub new_process : Architecture → CrashedProcess C
  unfolding no_dso_debug
  new_process architecture = record {
    architecture = architecture;
    mappings = [];
    threads = [];
    auxv = [];
    process_info = new_info;
    crashing_tid = none;
    exception_context = none;
    fatal_signal = 0;
    dso_debug = no_dso_debug;
    signatures = [];
  }

  unfoldable pub insert_mapping : Mapping → CrashedProcess C → CrashedProcess C
  insert_mapping m p = record p { mappings = BTreeMap.insert m.start_address m p.mappings }

  unfoldable pub insert_mapping_if_absent : Mapping → CrashedProcess C → CrashedProcess C
  insert_mapping_if_absent m p = record p {
    mappings = BTreeMap.or_insert m.start_address m p.mappings;
  }

  unfoldable pub add_thread : ThreadSnapshot C → CrashedProcess C → CrashedProcess C
  add_thread t p = record p { threads = p.threads ++ (t ∷ []) }

  unfoldable pub set_auxv : List ℕ → CrashedProcess C → CrashedProcess C
  set_auxv auxv p = record p { auxv = auxv }

  unfoldable pub apply_cmdline : List ℕ → CrashedProcess C → CrashedProcess C
  apply_cmdline cmdline p = record p {
    process_info = ProcessInfo.apply_cmdline p.process_info cmdline;
  }

  unfoldable pub set_pid : ℕ → CrashedProcess C → CrashedProcess C
  set_pid pid p = record p { process_info = record (p.process_info) { pid = pid } }

  unfoldable pub apply_module_name_fallback : List ℕ → CrashedProcess C → CrashedProcess C
  apply_module_name_fallback module_path p = record p {
    process_info = ProcessInfo.apply_module_name_fallback p.process_info module_path;
  }
