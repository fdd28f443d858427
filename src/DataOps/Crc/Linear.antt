-- ===== src/DataOps/Crc/Linear.antt =====
-- DataOps.cpp: the shift register is linear, so tables of its values on single bytes give all others.
use iacore.Base.{
  ℕ, zero, suc, ◌+◌, ◌*◌, ◌/◌, ◌%◌, ◌^◌, ◌<◌, ◌≡◌, refl, sym, ap, ◌∙◌, bit_and, bit_xor, ◌==◌,
  if◌then◌else◌, bit_and_1, bit_and_255, bit_xor-half, bit_xor-parity, bit_xor_swap, bit_xor-zero,
  bit_xor-byte, bit_xor_disjoint, bit_xor-lt, arith,
}
use native.Mathlib.Nat.{pow-suc}
use iacore.DataOps.{crc_bits, table, table_step}
use iacore.DataOps.Crc.{byte_step}

-- What a step adds for the bit that it shifts out.
feedback : ℕ → ℕ
feedback zero = 0
feedback (suc n) = 0x82F63B78

one_step : ℕ → ℕ
one_step x = bit_xor (x / 2) (feedback (x % 2))

crc_bits-suc : (n x : ℕ) → crc_bits (suc n) x ≡ crc_bits n (one_step x)
unfolding crc_bits one_step feedback
crc_bits-suc n x =
    ap (λ t. crc_bits n (bit_xor (x / 2) t)) (chosen (x % 2) (omega arith) (bit_and_1 x))
  where
    chosen :
        (bit : ℕ)
        → bit < 2
        → bit_and x 1 ≡ bit
        → (if bit_and x 1 == 0 then 0 else 0x82F63B78) ≡ feedback bit
    chosen zero h e = rw e
    chosen (suc zero) h e = rw e
    chosen (suc (suc bit)) h e = absurd (omega arith)

feedback-add :
    (x y : ℕ) → x < 2 → y < 2 → feedback ((x + y) % 2) ≡ bit_xor (feedback x) (feedback y)
unfolding feedback
feedback-add zero zero h g = refl
feedback-add zero (suc zero) h g = refl
feedback-add (suc zero) zero h g = refl
feedback-add (suc zero) (suc zero) h g = refl
feedback-add zero (suc (suc y)) h g = absurd (omega arith)
feedback-add (suc zero) (suc (suc y)) h g = absurd (omega arith)
feedback-add (suc (suc x)) y h g = absurd (omega arith)

one_step-xor : (a b : ℕ) → one_step (bit_xor a b) ≡ bit_xor (one_step a) (one_step b)
unfolding one_step
one_step-xor a b =
    let fed =
      ap feedback (bit_xor-parity a b) ∙ feedback-add (a % 2) (b % 2) (omega arith) (omega arith) in
    rw (bit_xor-half a b, fed) (bit_xor_swap (a / 2) (b / 2) (feedback (a % 2)) (feedback (b % 2)))

-- Linearity.
pub crc_bits-xor : (n a b : ℕ) → crc_bits n (bit_xor a b) ≡ bit_xor (crc_bits n a) (crc_bits n b)
unfolding crc_bits
crc_bits-xor zero a b = refl
crc_bits-xor (suc n) a b =
    crc_bits-suc n (bit_xor a b)
    ∙ ap (crc_bits n) (one_step-xor a b)
    ∙ crc_bits-xor n (one_step a) (one_step b)
    ∙ sym (λ i. bit_xor (crc_bits-suc n a i) (crc_bits-suc n b i))

-- Steps after steps.
pub crc_bits-crc_bits : (n m k x : ℕ) → k ≡ n + m → crc_bits m (crc_bits n x) ≡ crc_bits k x
unfolding crc_bits
crc_bits-crc_bits zero m k x h = let same : m ≡ k = omega arith in ap (λ j. crc_bits j x) same
crc_bits-crc_bits (suc n) m zero x h = absurd (omega arith)
crc_bits-crc_bits (suc n) m (suc k) x h =
    ap (crc_bits m) (crc_bits-suc n x)
    ∙ crc_bits-crc_bits n m k (one_step x) (omega arith)
    ∙ sym (crc_bits-suc k x)

-- Zeros that are shifted out leave no trace.
pub crc_bits-shifted : (n x : ℕ) → crc_bits n (x * 2 ^ n) ≡ x
unfolding crc_bits one_step feedback
crc_bits-shifted zero x = omega arith
crc_bits-shifted (suc n) x =
    let double : x * 2 ^ suc n ≡ x * 2 ^ n * 2 = rw pow-suc (omega arith) in
    let even : x * 2 ^ suc n % 2 ≡ 0 = omega (arith, double) in
    let half : x * 2 ^ suc n / 2 ≡ x * 2 ^ n = omega (arith, double) in
    crc_bits-suc n (x * 2 ^ suc n)
    ∙ ap (crc_bits n) (rw (even, half) (bit_xor-zero (x * 2 ^ n)))
    ∙ crc_bits-shifted n x

-- What comes later may be added before the steps, shifted.
pub crc_bits-absorb : (n x b : ℕ) → bit_xor (crc_bits n x) b ≡ crc_bits n (bit_xor x (b * 2 ^ n))
crc_bits-absorb n x b =
    ap (bit_xor (crc_bits n x)) (sym (crc_bits-shifted n b)) ∙ sym (crc_bits-xor n x (b * 2 ^ n))

-- Eight steps by one look into a table.
pub crc_bits-byte : (x : ℕ) → crc_bits 8 x ≡ bit_xor (x / 2 ^ 8) (crc_bits 8 (bit_and x 0xFF))
crc_bits-byte x =
    let parts : x ≡ bit_xor (x / 2 ^ 8 * 2 ^ 8) (bit_and x 255) = omega (
      arith,
      bit_and_255 x,
      bit_xor_disjoint 8 (x / 2 ^ 8) (bit_and x 255) (omega (arith, bit_and_255 x)),
    ) in
    ap (crc_bits 8) parts
    ∙ crc_bits-xor 8 (x / 2 ^ 8 * 2 ^ 8) (bit_and x 255)
    ∙ ap (λ t. bit_xor t (crc_bits 8 (bit_and x 255))) (crc_bits-shifted 8 (x / 2 ^ 8))

-- The tables hold what 8, 16, … 64 steps make of a byte.
pub table-crc_bits : (slice i n : ℕ) → n ≡ 8 + slice * 8 → table slice i ≡ crc_bits n i
unfolding table
table-crc_bits zero i n h = let same : 8 ≡ n = omega arith in ap (λ k. crc_bits k i) same
table-crc_bits (suc slice) i n h =
    sym (crc_bits-byte (table slice i))
    ∙ ap (crc_bits 8) (table-crc_bits slice i (8 + slice * 8) refl)
    ∙ crc_bits-crc_bits (8 + slice * 8) 8 n i (omega arith)

-- The step of the loop over single bytes.
pub table_step-byte_step : (crc b : ℕ) → b < 256 → table_step crc b ≡ byte_step crc b
unfolding byte_step table table_step
table_step-byte_step crc b h =
    let high : bit_xor crc b / 2 ^ 8 ≡ crc / 2 ^ 8 =
      bit_xor-byte crc b ∙ ap (bit_xor (crc / 2 ^ 8)) (omega arith) ∙ bit_xor-zero (crc / 2 ^ 8) in
    ap (λ t. bit_xor t (crc_bits 8 (bit_and (bit_xor crc b) 0xFF))) (sym high)
    ∙ sym (crc_bits-byte (bit_xor crc b))

-- The register keeps its 32 bits.
one_step-lt : (x : ℕ) → x < 2 ^ 32 → one_step x < 2 ^ 32
unfolding one_step
one_step-lt x h = bit_xor-lt 32 (x / 2) (feedback (x % 2)) (omega arith) (feedback-lt (x % 2))
  where
    feedback-lt : (bit : ℕ) → feedback bit < 2 ^ 32
    feedback-lt zero = unfold feedback in omega arith
    feedback-lt (suc bit) = unfold feedback in omega arith

crc_bits-lt : (n x : ℕ) → x < 2 ^ 32 → crc_bits n x < 2 ^ 32
unfolding crc_bits
crc_bits-lt zero x h = h
crc_bits-lt (suc n) x h = rw (crc_bits-suc n x) (crc_bits-lt n (one_step x) (one_step-lt x h))

pub byte_step-lt : (crc b : ℕ) → crc < 2 ^ 32 → b < 256 → byte_step crc b < 2 ^ 32
unfolding byte_step
byte_step-lt crc b h g = crc_bits-lt 8 (bit_xor crc b) (bit_xor-lt 32 crc b h (omega arith))
