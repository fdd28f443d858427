-- ===== src/Base/Xor.antt =====
-- Laws of `bit_xor` at variables: it is a commutative group operation, and it commutes with shifts.
use Prim.Native.Nat.{
  ℕ, zero, suc, ◌+◌, ◌*◌, ◌/◌, ◌%◌, ◌^◌, ◌≤◌, ◌<◌, differ, bit_xor, bit_xor-bitwise,
}
use mathlib.Core.Path.{◌≡◌, refl, sym, ap, ◌∙◌}
use native.Mathlib.Nat.{pow-suc}
use native.Mathlib.Omega.{arith}
use iacore.Base.Bits.{lowest}

differ_digits : (x y : ℕ) → x < 2 → y < 2 → differ x y ≡ (x + y) % 2
differ_digits zero zero h g = refl
differ_digits zero (suc zero) h g = refl
differ_digits (suc zero) zero h g = refl
differ_digits (suc zero) (suc zero) h g = refl
differ_digits zero (suc (suc y)) h g = absurd (omega arith)
differ_digits (suc zero) (suc (suc y)) h g = absurd (omega arith)
differ_digits (suc (suc x)) y h g = absurd (omega arith)

-- The lowest digit, and the others.
pub bit_xor-lowest : (a b : ℕ) → bit_xor a b ≡ bit_xor (a / 2) (b / 2) * 2 + (a + b) % 2
bit_xor-lowest a b =
    let whole =
      bit_xor-bitwise a b ∙ lowest (λ b. b) differ a b (ground (arith, differ_digits 0 (b % 2))) in
    omega (
      arith,
      whole,
      bit_xor-bitwise (a / 2) (b / 2),
      differ_digits (a % 2) (b % 2) (omega arith) (omega arith),
    )

pub zero-bit_xor : (b : ℕ) → bit_xor 0 b ≡ b
zero-bit_xor b = bit_xor-bitwise 0 b

bit_xor_comm_upto : (n a b : ℕ) → a + b ≤ n → bit_xor a b ≡ bit_xor b a
bit_xor_comm_upto zero a b h =
    let a0 : a ≡ 0 = omega arith in let b0 : b ≡ 0 = omega arith in rw (a0, b0)
bit_xor_comm_upto (suc n) a b h = omega (
  arith,
  bit_xor-lowest a b,
  bit_xor-lowest b a,
  bit_xor_comm_upto n (a / 2) (b / 2) (omega arith),
)

pub bit_xor_comm : (a b : ℕ) → bit_xor a b ≡ bit_xor b a
bit_xor_comm a b = bit_xor_comm_upto (a + b) a b (omega arith)

pub bit_xor-zero : (a : ℕ) → bit_xor a 0 ≡ a
bit_xor-zero a = bit_xor_comm a 0 ∙ zero-bit_xor a

pub bit_xor-half : (a b : ℕ) → bit_xor a b / 2 ≡ bit_xor (a / 2) (b / 2)
bit_xor-half a b = omega (arith, bit_xor-lowest a b)

bit_xor_assoc_upto :
    (n a b c : ℕ) → a + b + c ≤ n → bit_xor (bit_xor a b) c ≡ bit_xor a (bit_xor b c)
bit_xor_assoc_upto zero a b c h =
    let a0 : a ≡ 0 = omega arith in
    let b0 : b ≡ 0 = omega arith in let c0 : c ≡ 0 = omega arith in rw (a0, b0, c0)
bit_xor_assoc_upto (suc n) a b c h = omega (
  arith,
  bit_xor-lowest (bit_xor a b) c,
  bit_xor-lowest a (bit_xor b c),
  bit_xor-lowest a b,
  bit_xor-lowest b c,
  ap (λ t. bit_xor t (c / 2)) (bit_xor-half a b),
  ap (λ t. bit_xor (a / 2) t) (bit_xor-half b c),
  bit_xor_assoc_upto n (a / 2) (b / 2) (c / 2) (omega arith),
)

pub bit_xor_assoc : (a b c : ℕ) → bit_xor (bit_xor a b) c ≡ bit_xor a (bit_xor b c)
bit_xor_assoc a b c = bit_xor_assoc_upto (a + b + c) a b c (omega arith)

-- The middle two change places.
pub bit_xor_swap :
    (a b c d : ℕ) → bit_xor (bit_xor a b) (bit_xor c d) ≡ bit_xor (bit_xor a c) (bit_xor b d)
bit_xor_swap a b c d =
    bit_xor_assoc a b (bit_xor c d)
    ∙ ap (bit_xor a)
        (sym (bit_xor_assoc b c d) ∙ ap (λ t. bit_xor t d) (bit_xor_comm b c) ∙ bit_xor_assoc c b d)
    ∙ sym (bit_xor_assoc a c (bit_xor b d))

pub bit_xor-even : (a b : ℕ) → bit_xor (a * 2) (b * 2) ≡ bit_xor a b * 2
bit_xor-even a b =
    let a_half : a * 2 / 2 ≡ a = omega arith in
    let b_half : b * 2 / 2 ≡ b = omega arith in
    let halves : bit_xor (a * 2 / 2) (b * 2 / 2) ≡ bit_xor a b = rw (a_half, b_half) in
    omega (arith, bit_xor-lowest (a * 2) (b * 2), halves)

-- Right shifts: a shift by twice as much is two shifts.
bit_xor-quarter : (a b : ℕ) → bit_xor a b / 4 ≡ bit_xor (a / 4) (b / 4)
bit_xor-quarter a b =
    let a_same : a / 2 / 2 ≡ a / 4 = omega arith in
    let b_same : b / 2 / 2 ≡ b / 4 = omega arith in
    let twice : bit_xor (a / 2 / 2) (b / 2 / 2) ≡ bit_xor (a / 4) (b / 4) = rw (a_same, b_same) in
    omega (arith, bit_xor-half a b, bit_xor-half (a / 2) (b / 2), twice)

bit_xor-nibble : (a b : ℕ) → bit_xor a b / 16 ≡ bit_xor (a / 16) (b / 16)
bit_xor-nibble a b =
    let a_same : a / 4 / 4 ≡ a / 16 = omega arith in
    let b_same : b / 4 / 4 ≡ b / 16 = omega arith in
    let twice : bit_xor (a / 4 / 4) (b / 4 / 4) ≡ bit_xor (a / 16) (b / 16) = rw (a_same, b_same) in
    omega (arith, bit_xor-quarter a b, bit_xor-quarter (a / 4) (b / 4), twice)

pub bit_xor-byte : (a b : ℕ) → bit_xor a b / 2 ^ 8 ≡ bit_xor (a / 2 ^ 8) (b / 2 ^ 8)
bit_xor-byte a b =
    let a_same : a / 16 / 16 ≡ a / 2 ^ 8 = omega arith in
    let b_same : b / 16 / 16 ≡ b / 2 ^ 8 = omega arith in
    let twice : bit_xor (a / 16 / 16) (b / 16 / 16) ≡ bit_xor (a / 2 ^ 8) (b / 2 ^ 8) =
      rw (a_same, b_same) in
    omega (arith, bit_xor-nibble a b, bit_xor-nibble (a / 16) (b / 16), twice)

pub bit_xor-parity : (a b : ℕ) → bit_xor a b % 2 ≡ (a % 2 + b % 2) % 2
bit_xor-parity a b = omega (arith, bit_xor-lowest a b)

-- Of numbers with no common digit it is the sum.
pub bit_xor_disjoint : (k a b : ℕ) → b < 2 ^ k → bit_xor (a * 2 ^ k) b ≡ a * 2 ^ k + b
bit_xor_disjoint zero a b h =
    let z : b ≡ 0 = omega arith in rw z (omega (arith, bit_xor-zero (a * 1)))
bit_xor_disjoint (suc k) a b h =
    let fits : b / 2 < 2 ^ k = omega (arith, pow-suc 2 k) in
    let half : a * (2 ^ k * 2) / 2 ≡ a * 2 ^ k = omega arith in
    rw pow-suc (
      omega (
        arith,
        bit_xor-lowest (a * (2 ^ k * 2)) b,
        ap (λ t. bit_xor t (b / 2)) half,
        bit_xor_disjoint k a (b / 2) fits,
      ))

pub bit_xor-lt : (k a b : ℕ) → a < 2 ^ k → b < 2 ^ k → bit_xor a b < 2 ^ k
bit_xor-lt zero a b h g =
    let a0 : a ≡ 0 = omega arith in let b0 : b ≡ 0 = omega arith in rw (a0, b0) (omega arith)
bit_xor-lt (suc k) a b h g = omega (
  arith,
  pow-suc 2 k,
  bit_xor-lowest a b,
  bit_xor-lt k (a / 2) (b / 2) (omega (arith, pow-suc 2 k)) (omega (arith, pow-suc 2 k)),
)

bit_xor_self_upto : (n a : ℕ) → a ≤ n → bit_xor a a ≡ 0
bit_xor_self_upto zero a h = let a0 : a ≡ 0 = omega arith in rw a0 (zero-bit_xor 0)
bit_xor_self_upto (suc n) a h =
    omega (arith, bit_xor-lowest a a, bit_xor_self_upto n (a / 2) (omega arith))

pub bit_xor_self : (a : ℕ) → bit_xor a a ≡ 0
bit_xor_self a = bit_xor_self_upto a a (omega arith)
