-- ===== src/RustMinidump/System/Supported.antt =====
-- Which systems `architecture_from_cpu_os` accepts.
use minidump2core.Prelude.{ℕ, ◌≡◌, refl, ap, ◌∙◌, ◌⊎◌, ◌↔◌, inl, inr, arith}
use minidump2core.Error.{ok, ok-injective}
use minidump2core.Model.Architecture.{Architecture}
use minidump2core.RustMinidump.Streams.{Os, linux, nacl, android, other_os, Cpu, Names}
use minidump2core.RustMinidump.System.{
  is_supported_os, architecture_of_cpu, architecture_from_cpu_os,
}

-- The CPU that each target stands for.
unfoldable pub cpu_of : Architecture → Cpu
cpu_of Architecture.x86 = Cpu.x86
cpu_of Architecture.x86_64 = Cpu.x86_64
cpu_of Architecture.arm = Cpu.arm
cpu_of Architecture.aarch64 = Cpu.arm64
cpu_of Architecture.mips = Cpu.mips
cpu_of Architecture.mips64 = Cpu.mips64

abbrev pub IsLinux : Os → Type 0
IsLinux os = (os ≡ linux) ⊎ ((os ≡ nacl) ⊎ (os ≡ android))

refused :
    (names : Names) (cpu : Cpu) (n : ℕ) (arch : Architecture)
    → ¬ (architecture_from_cpu_os names cpu (other_os n) ≡ ok arch)
unfolding architecture_from_cpu_os is_supported_os
refused names cpu n arch e = absurd (ground arith)

by_cpu :
    (names : Names) (cpu : Cpu) (os : Os) (arch : Architecture)
    → architecture_of_cpu names cpu os ≡ ok arch
    → cpu ≡ cpu_of arch
unfolding architecture_of_cpu cpu_of
by_cpu names Cpu.x86 os arch e = ap cpu_of (ok-injective e)
by_cpu names Cpu.x86_64 os arch e = ap cpu_of (ok-injective e)
by_cpu names Cpu.arm os arch e = ap cpu_of (ok-injective e)
by_cpu names Cpu.arm64 os arch e = ap cpu_of (ok-injective e)
by_cpu names Cpu.mips os arch e = ap cpu_of (ok-injective e)
by_cpu names Cpu.mips64 os arch e = ap cpu_of (ok-injective e)
by_cpu names (Cpu.other_cpu n) os arch e = absurd (ground arith)

of_cpu :
    (names : Names) (os : Os) (arch : Architecture)
    → architecture_of_cpu names (cpu_of arch) os ≡ ok arch
unfolding architecture_of_cpu cpu_of
of_cpu names os Architecture.x86 = refl
of_cpu names os Architecture.x86_64 = refl
of_cpu names os Architecture.arm = refl
of_cpu names os Architecture.aarch64 = refl
of_cpu names os Architecture.mips = refl
of_cpu names os Architecture.mips64 = refl

accepted :
    (names : Names) (cpu : Cpu) (os : Os) (arch : Architecture)
    → architecture_from_cpu_os names cpu os ≡ ok arch
    → IsLinux os × (cpu ≡ cpu_of arch)
unfolding architecture_from_cpu_os is_supported_os
accepted names cpu linux arch e = (inl refl, by_cpu names cpu linux arch e)
accepted names cpu nacl arch e = (inr (inl refl), by_cpu names cpu nacl arch e)
accepted names cpu android arch e = (inr (inr refl), by_cpu names cpu android arch e)
accepted names cpu (other_os n) arch e = absurd (refused names cpu n arch e)

accepts :
    (names : Names) (cpu : Cpu) (os : Os) (arch : Architecture)
    → IsLinux os × (cpu ≡ cpu_of arch)
    → architecture_from_cpu_os names cpu os ≡ ok arch
unfolding architecture_from_cpu_os is_supported_os
accepts names cpu linux arch h =
    ap (λ c. architecture_of_cpu names c linux) h.1 ∙ of_cpu names linux arch
accepts names cpu nacl arch h =
    ap (λ c. architecture_of_cpu names c nacl) h.1 ∙ of_cpu names nacl arch
accepts names cpu android arch h =
    ap (λ c. architecture_of_cpu names c android) h.1 ∙ of_cpu names android arch
accepts names cpu (other_os n) arch h = absurd (go h.0)
  where
    go : ¬ IsLinux (other_os n)
    go (inl e) = absurd (cc)
    go (inr (inl e)) = absurd (cc)
    go (inr (inr e)) = absurd (cc)

-- `architecture_from_cpu_os` returns an architecture exactly where the system is Linux, NaCl or
-- Android and the CPU is the one that the architecture stands for.
pub architecture_from_cpu_os_lem :
    (names : Names) (cpu : Cpu) (os : Os) (arch : Architecture)
    → (architecture_from_cpu_os names cpu os ≡ ok arch) ↔ (IsLinux os × (cpu ≡ cpu_of arch))
architecture_from_cpu_os_lem names cpu os arch =
    (accepted names cpu os arch, accepts names cpu os arch)
