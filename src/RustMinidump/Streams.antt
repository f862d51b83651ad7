-- ===== src/RustMinidump/Streams.antt =====
-- The parameters of src/rust_minidump.rs: what the minidump crate returns for a dump, what the file
-- system returns for a path, and what the scroll crate reads. A name is the bytes of a Rust string.
use minidump2core.Prelude.{ℕ, Bool, Option, List}
use minidump2core.CpuContext.{RawContext}

-- The values of the crate's enumerations that the source names, and any other.
pub data Os : Type 0 where
  linux nacl android : Os
  other_os : ℕ → Os

pub data Cpu : Type 0 where
  x86 x86_64 arm arm64 mips mips64 : Cpu
  other_cpu : ℕ → Cpu

pub record SystemInfo : Type 0 where
  pub os : Os
  pub cpu : Cpu

-- `minidump::Error`, with its `Debug` text.
pub data StreamError : Type 0 where
  stream_not_found : List ℕ → StreamError
  other_error : List ℕ → StreamError

-- What `get_stream` or `get_raw_stream` returns.
pub data Stream {ℓ} (A : Type ℓ) : Type ℓ where
  found : A → Stream A
  failed : StreamError → Stream A

pub data RawStream : Type 0 where
  linux_auxv linux_cmd_line linux_dso_debug : RawStream

-- An entry of `by_addr()`; the name is that of `MMapPath::Path`, by `to_string_lossy`.
pub record MapInfo : Type 0 where
  pub start : ℕ
  pub end_address : ℕ
  pub offset : ℕ
  pub pathname : Option (List ℕ)
  pub is_readable : Bool
  pub is_writable : Bool
  pub is_executable : Bool

-- A thread, with what `stack_memory` and `context` return for it.
pub record MinidumpThread : Type 0 where
  pub thread_id : ℕ
  pub start_of_memory_range : ℕ
  pub stack_memory : Option (List ℕ)
  pub context : Option RawContext

-- `data4` has eight bytes.
pub record Guid : Type 0 where
  pub data1 : ℕ
  pub data2 : ℕ
  pub data3 : ℕ
  pub data4 : List ℕ

pub data CodeView : Type 0 where
  pdb70 : Guid → CodeView
  other_code_view : CodeView

pub record MinidumpModule : Type 0 where
  pub base_of_image : ℕ
  pub size_of_image : ℕ
  pub name : List ℕ
  pub codeview_info : Option CodeView

pub record MinidumpException : Type 0 where
  pub thread_id : ℕ
  pub exception_code : ℕ
  pub context : Option RawContext

pub record Minidump : Type 0 where
  pub system_info : Stream SystemInfo
  pub linux_maps : Stream (List MapInfo)
  pub raw_stream : RawStream → Stream (List ℕ)
  pub thread_list : Stream (List MinidumpThread)
  pub module_list : Stream (List MinidumpModule)
  pub exception : Stream MinidumpException

-- `std::fs::metadata(path).is_ok()` and `std::fs::read(path).ok()`.
pub record FileSystem : Type 0 where
  pub metadata_is_ok : List ℕ → Bool
  pub read_file : List ℕ → Option (List ℕ)

-- `DSO_DEBUG_32` and `DSO_DEBUG_64`.
pub record DebugHeader : Type 0 where
  pub version : ℕ
  pub map : ℕ
  pub dso_count : ℕ
  pub brk : ℕ
  pub ldbase : ℕ
  pub dynamic : ℕ

-- `LINK_MAP_32` and `LINK_MAP_64`.
pub record RawLinkMap : Type 0 where
  pub addr : ℕ
  pub name : ℕ
  pub ld : ℕ

-- What `pread_with` returns: a value, or the text of its error.
pub data Pread (A : Type 0) : Type 0 where
  value : A → Pread A
  bad_read : List ℕ → Pread A

-- The sizes of these, `pread_with` for each at an offset of a buffer, and for a `u32`.
pub record Layouts : Type 0 where
  pub size_of_dso_debug : ℕ
  pub size_of_link_map : ℕ
  pub pread_dso_debug : List ℕ → ℕ → Pread DebugHeader
  pub pread_link_map : List ℕ → ℕ → Pread RawLinkMap

pub record Formats : Type 0 where
  pub layouts_32 : Layouts
  pub layouts_64 : Layouts
  pub pread_u32 : List ℕ → ℕ → Pread ℕ

-- The text that `to_string` gives.
pub record Names : Type 0 where
  pub os_name : Os → List ℕ
  pub cpu_name : Cpu → List ℕ
