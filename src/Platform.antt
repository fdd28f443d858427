-- ===== src/Platform.antt =====
-- Src/IACore/imp/cpp/Platform.cpp and Src/IACore/inc/IACore/Platform.hpp: Platform. What the processor
-- answers to `cpuid` and `xgetbv` and the system to `getauxval` is a parameter; the registers are
-- `u32`, and the first one is compared as an `i32`.
pub mod Features
mod Tests
use iacore.Base.{
  ℕ, ◌/◌, ◌%◌, ◌^◌, bit_and, Bool, true, false, ◌&&◌, ◌||◌, not, Bytes, codes, ltb, leb, ◌==◌,
  if◌then◌else◌,
}

pub record Registers : Type 0 where
  pub eax : ℕ
  pub ebx : ℕ
  pub ecx : ℕ
  pub edx : ℕ

pub record X64 : Type 0 where
  pub cpuid : (function sub_function : ℕ) → Registers
  pub xgetbv : ℕ → ℕ

-- What the code is built for: on ARM under Linux or Android with the answer of `getauxval`.
pub data Target : Type 0 where
  x64 : X64 → Target
  arm64_linux : (hw_caps : ℕ) → Target
  arm64_apple arm64_other wasm other_arch : Target

pub record Capabilities : Type 0 where
  pub hardware_crc32 : Bool

-- `(n & (1 << i)) != 0`.
pub has_bit : ℕ → ℕ → Bool
has_bit n i = not (bit_and n (2 ^ i) == 0)

-- `cpu_info[0] < 7`.
pub is_below_7 : ℕ → Bool
is_below_7 eax = ltb eax 7 || leb (2 ^ 31) eax

-- The returns of `check_cpu` in their order.
pub decide : (below_7 osxsave avx fma states avx2 : Bool) → Capabilities → Bool × Capabilities
decide below_7 osxsave avx fma states avx2 c =
    if below_7
    then (false, c)
    else if not osxsave || not avx || not fma
    then (false, c)
    else if not states
    then (false, c)
    else if not avx2
    then (false, c)
    else (true, record { hardware_crc32 = true })

pub check_x64 : X64 → Capabilities → Bool × Capabilities
unfolding has_bit is_below_7 decide
check_x64 cpu c =
    let leaf_1 = (cpu.cpuid 1 0).ecx in
    decide (is_below_7 (cpu.cpuid 0 0).eax) (has_bit leaf_1 27) (has_bit leaf_1 28)
      (has_bit leaf_1 12) (bit_and (cpu.xgetbv 0) 6 == 6) (has_bit (cpu.cpuid 7 0).ebx 5) c

-- `check_cpu`, with `s_capabilities` before and after it.
pub check_cpu : Target → Capabilities → Bool × Capabilities
unfolding check_x64 has_bit
check_cpu (x64 cpu) c = check_x64 cpu c
check_cpu (arm64_linux hw_caps) c = (true, record { hardware_crc32 = has_bit hw_caps 7 })
check_cpu arm64_apple c = (true, record { hardware_crc32 = true })
check_cpu arm64_other c = (true, record { hardware_crc32 = false })
check_cpu wasm c = (true, record { hardware_crc32 = false })
check_cpu other_arch c = (true, record { hardware_crc32 = false })

pub get_architecture_name : Target → Bytes
get_architecture_name (x64 cpu) = codes "x86_64"
get_architecture_name (arm64_linux hw_caps) = codes "aarch64"
get_architecture_name arm64_apple = codes "aarch64"
get_architecture_name arm64_other = codes "aarch64"
get_architecture_name wasm = codes "wasm"
get_architecture_name other_arch = codes "unknown"

-- The system that the code is built for, by the first macro of `get_operating_system_name` that is set.
pub data OperatingSystem : Type 0 where
  windows ios macos android linux web_assembly unknown_system : OperatingSystem

pub get_operating_system_name : OperatingSystem → Bytes
get_operating_system_name windows = codes "Windows"
get_operating_system_name ios = codes "iOS"
get_operating_system_name macos = codes "macOS"
get_operating_system_name android = codes "Android"
get_operating_system_name linux = codes "Linux"
get_operating_system_name web_assembly = codes "WebAssembly"
get_operating_system_name unknown_system = codes "Unknown"
