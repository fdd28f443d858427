-- ===== src/Platform/Tests.antt =====
-- Platform.cpp: a processor with all features, and one without FMA.
use iacore.Base.{ℕ, ◌^◌, ◌+◌, ◌≡◌, refl, false, true, ◌||◌, ◌==◌, if◌then◌else◌}
use iacore.Platform.{X64, x64, check_cpu}
use iacore.Platform.Features.{supports_avx2, check_cpu-supports_avx2}

abbrev processor : (features : ℕ) → X64
processor features = record {
  cpuid = λ function sub_function.
      if function == 0
      then record { eax = 13; ebx = 0; ecx = 0; edx = 0 }
      else record { eax = 0; ebx = 2 ^ 5; ecx = features; edx = 0 };
  xgetbv = λ i. 7;
}

abbrev full : X64
full = processor (2 ^ 27 + 2 ^ 28 + 2 ^ 12)

with_all :
    check_cpu (x64 full) (record { hardware_crc32 = false })
    ≡ (true, record { hardware_crc32 = true })
unfolding check_cpu
with_all = refl

without_fma :
    check_cpu (x64 (processor (2 ^ 27 + 2 ^ 28))) (record { hardware_crc32 = false })
    ≡ (false, record { hardware_crc32 = false })
unfolding check_cpu
without_fma = refl

check_cpu-supports_avx2_example :
    ((check_cpu (x64 full) (record { hardware_crc32 = false })).0 ≡ supports_avx2 full)
    × ((check_cpu (x64 full) (record { hardware_crc32 = false })).1.hardware_crc32
        ≡ (supports_avx2 full || false))
check_cpu-supports_avx2_example = check_cpu-supports_avx2 full (record { hardware_crc32 = false })
