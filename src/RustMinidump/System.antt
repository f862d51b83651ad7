-- ===== src/RustMinidump/System.antt =====
-- `architecture_from_cpu_os` and `optional_raw_stream` of src/rust_minidump.rs.
pub mod Supported
use minidump2core.Prelude.{ℕ, Bool, true, false, Option, none, some, List, if◌then◌else◌}
use minidump2core.Error.{Result, ok, err, minidump_read, unsupported_system}
use minidump2core.Model.Architecture.{Architecture}
use minidump2core.RustMinidump.Streams.{
  Os, linux, nacl, android, other_os, Cpu, SystemInfo, Stream, found, failed, StreamError,
  stream_not_found, other_error, RawStream, Minidump, Names,
}

-- `matches!(os, Os::Linux | Os::NaCl | Os::Android)`
unfoldable pub is_supported_os : Os → Bool
is_supported_os linux = true
is_supported_os nacl = true
is_supported_os android = true
is_supported_os (other_os n) = false

unfoldable pub architecture_of_cpu : Names → Cpu → Os → Result Architecture
architecture_of_cpu names Cpu.x86 os = ok Architecture.x86
architecture_of_cpu names Cpu.x86_64 os = ok Architecture.x86_64
architecture_of_cpu names Cpu.arm os = ok Architecture.arm
architecture_of_cpu names Cpu.arm64 os = ok Architecture.aarch64
architecture_of_cpu names Cpu.mips os = ok Architecture.mips
architecture_of_cpu names Cpu.mips64 os = ok Architecture.mips64
architecture_of_cpu names (Cpu.other_cpu n) os =
    err (unsupported_system (names.os_name os) (names.cpu_name (Cpu.other_cpu n)))

unfoldable pub architecture_from_cpu_os : Names → Cpu → Os → Result Architecture
unfolding is_supported_os architecture_of_cpu
architecture_from_cpu_os names cpu os =
    if is_supported_os os
    then architecture_of_cpu names cpu os
    else err (unsupported_system (names.os_name os) (names.cpu_name cpu))

unfoldable pub architecture_from_system_info : Names → SystemInfo → Result Architecture
unfolding architecture_from_cpu_os
architecture_from_system_info names info = architecture_from_cpu_os names info.cpu info.os

abbrev pub error_text : StreamError → List ℕ
error_text (stream_not_found text) = text
error_text (other_error text) = text

abbrev pub optional : Stream (List ℕ) → Result (Option (List ℕ))
optional (found bytes) = ok (some bytes)
optional (failed (stream_not_found text)) = ok none
optional (failed (other_error text)) = err (minidump_read text)

unfoldable pub optional_raw_stream : Minidump → RawStream → Result (Option (List ℕ))
optional_raw_stream dump stream_type = optional (dump.raw_stream stream_type)

-- `get_stream::<T>()?`
abbrev pub required {ℓ} : {A : Type ℓ} → Stream A → Result A
required (found a) = ok a
required (failed error) = err (minidump_read (error_text error))
