-- ===== src/Platform/Features.antt =====
-- Platform.cpp: which processors pass `check_cpu`.
use iacore.Base.{
  ℕ, ◌*◌, ◌/◌, ◌%◌, ◌^◌, ◌<◌, ◌≡◌, refl, ap, ◌∙◌, bit_and, bit_and_power, bit_and_6, Bool, true,
  false, ◌&&◌, ◌||◌, not, ◌⊎◌, inl, inr, ltb, leb, ◌==◌, arith,
}
use iacore.Platform.{X64, x64, Capabilities, has_bit, is_below_7, decide, check_x64, check_cpu}

-- Bit `i` of a number.
pub bit : ℕ → ℕ → Bool
bit n i = n / 2 ^ i % 2 == 1

-- What the manual asks of a processor for AVX2: the leaf 7, OSXSAVE, AVX and FMA, both vector states of
-- the system, and AVX2.
pub supports_avx2 : X64 → Bool
unfolding bit
supports_avx2 cpu =
    (leb 7 (cpu.cpuid 0 0).eax && ltb (cpu.cpuid 0 0).eax (2 ^ 31))
    && (bit (cpu.cpuid 1 0).ecx 27 && bit (cpu.cpuid 1 0).ecx 28 && bit (cpu.cpuid 1 0).ecx 12)
    && (bit (cpu.xgetbv 0) 1 && bit (cpu.xgetbv 0) 2)
    && bit (cpu.cpuid 7 0).ebx 5

product_test : (b p : ℕ) → (b ≡ 0) ⊎ (b ≡ 1) → 0 < p → not (b * p == 0) ≡ (b == 1)
product_test b p (inl none) positive =
    let empty : 0 * p ≡ 0 = omega arith in rw none (ap (λ m. not (m == 0)) empty)
product_test b p (inr one) positive =
    let same : 1 * p ≡ p = omega arith in
    rw one (ap (λ m. not (m == 0)) same ∙ positive_test p positive)
  where
    positive_test : (n : ℕ) → 0 < n → not (n == 0) ≡ true
    positive_test n h = ground arith

binary : (n : ℕ) → (n % 2 ≡ 0) ⊎ (n % 2 ≡ 1)
binary n = ground arith

has_bit-bit : (n i : ℕ) → 0 < 2 ^ i → has_bit n i ≡ bit n i
unfolding has_bit bit
has_bit-bit n i positive =
    ap (λ m. not (m == 0)) (bit_and_power i n)
    ∙ product_test (n / 2 ^ i % 2) (2 ^ i) (binary (n / 2 ^ i)) positive

mask_6 : (n : ℕ) → (bit_and n 6 == 6) ≡ (bit n 1 && bit n 2)
unfolding bit
mask_6 n = ap (λ m. m == 6) (bit_and_6 n) ∙ ground arith

below_7 : (eax : ℕ) → is_below_7 eax ≡ not (leb 7 eax && ltb eax (2 ^ 31))
unfolding is_below_7
below_7 eax = ground arith

-- The returns agree with one conjunction.
decide-all :
    (low osxsave avx fma states avx2 : Bool) (c : Capabilities)
    → let all = low && (osxsave && avx && fma) && states && avx2 in
      ((decide (not low) osxsave avx fma states avx2 c).0 ≡ all)
      × ((decide (not low) osxsave avx fma states avx2 c).1.hardware_crc32
          ≡ (all || c.hardware_crc32))
unfolding decide
decide-all false osxsave avx fma states avx2 c = (refl, refl)
decide-all true false avx fma states avx2 c = (refl, refl)
decide-all true true false fma states avx2 c = (refl, refl)
decide-all true true true false states avx2 c = (refl, refl)
decide-all true true true true false avx2 c = (refl, refl)
decide-all true true true true true false c = (refl, refl)
decide-all true true true true true true c = (refl, refl)

-- On an x64 processor `check_cpu` returns true exactly when the processor supports AVX2 with FMA and the system saves its
-- registers, and the checksum instructions count as present from then on; they stay as they were when it returns false.
pub check_cpu-supports_avx2 :
    (cpu : X64) (c : Capabilities)
    → ((check_cpu (x64 cpu) c).0 ≡ supports_avx2 cpu)
      × ((check_cpu (x64 cpu) c).1.hardware_crc32 ≡ (supports_avx2 cpu || c.hardware_crc32))
unfolding check_cpu check_x64 supports_avx2
check_cpu-supports_avx2 cpu c =
    let leaf_1 = (cpu.cpuid 1 0).ecx in
    rw (below_7 (cpu.cpuid 0 0).eax) (
      rw (has_bit-bit leaf_1 27 (omega arith)) (
        rw (has_bit-bit leaf_1 28 (omega arith)) (
          rw (has_bit-bit leaf_1 12 (omega arith)) (
            rw (mask_6 (cpu.xgetbv 0)) (
              rw (has_bit-bit (cpu.cpuid 7 0).ebx 5 (omega arith)) (
                decide-all (leb 7 (cpu.cpuid 0 0).eax && ltb (cpu.cpuid 0 0).eax (2 ^ 31))
                  (bit leaf_1 27) (bit leaf_1 28) (bit leaf_1 12)
                  (bit (cpu.xgetbv 0) 1 && bit (cpu.xgetbv 0) 2) (bit (cpu.cpuid 7 0).ebx 5) c))))))
