-- ===== src/Base/Bits.antt =====
-- Laws of `bit_and` and `bit_or` at variables: masks, disjoint ors, and checks over a small range.
use Prim.Native.Nat.{
  ℕ, zero, suc, ◌+◌, ◌-◌, ◌*◌, ◌/◌, ◌%◌, ◌^◌, ◌≤◌, ◌<◌, min, max, bit_and, bit_or, digits,
  bit_and-bitwise, bit_or-bitwise,
}
use mathlib.Core.Path.{◌≡◌, refl, sym, ap, ◌∙◌}
use mathlib.Core.Bool.{Bool, true, false}
use native.Mathlib.Nat.{pow-suc, mul_assoc, div-div-eq-div-mul}
use iacore.Base.Tests.{if◌then◌else◌}
use native.Mathlib.Omega.{arith}

-- A test of every value below a small bound, by evaluation.
unfoldable pub all_below : ℕ → (ℕ → Bool) → Bool
all_below zero test = true
all_below (suc bound) test = if test bound then all_below bound test else false

pub all_below_sound :
    (bound : ℕ) (test : ℕ → Bool) (x : ℕ) → all_below bound test ≡ true → x < bound → test x ≡ true
unfolding all_below
all_below_sound zero test x h below = absurd (omega arith)
all_below_sound (suc bound) test x h below = ground (arith, all_below_sound bound test x)

-- An operation on binary digits, by what it does with the lowest ones. `z` is the result when the first number
-- has run out.
module _ (z : ℕ → ℕ) (f : ℕ → ℕ → ℕ) where
  one_more : (n a b : ℕ) → a ≤ n → digits z f (suc n) a b ≡ digits z f n a b
  one_more zero zero b h = refl
  one_more (suc n) zero b h = refl
  one_more zero (suc a) b h = absurd (omega arith)
  one_more (suc n) (suc a) b h =
      ap (λ t. t * 2 + f (suc a % 2) (b % 2)) (one_more n (suc a / 2) (b / 2) (omega arith))

  spare : (k a b : ℕ) → digits z f (a + k) a b ≡ digits z f a a b
  spare zero a b = let none_more : a + 0 ≡ a = omega arith in ap (λ n. digits z f n a b) none_more
  spare (suc k) a b =
      let shift : a + suc k ≡ suc (a + k) = omega arith in
      ap (λ n. digits z f n a b) shift ∙ one_more (a + k) a b (omega arith) ∙ spare k a b

  pub lowest :
      (a b : ℕ)
      → z b ≡ z (b / 2) * 2 + f 0 (b % 2)
      → digits z f a a b ≡ digits z f (a / 2) (a / 2) (b / 2) * 2 + f (a % 2) (b % 2)
  lowest zero b h = h
  lowest (suc a) b h =
      ap (λ t. t * 2 + f (suc a % 2) (b % 2))
        (ap (λ n. digits z f n (suc a / 2) (b / 2)) enough
          ∙ spare (a - suc a / 2) (suc a / 2) (b / 2))
    where
      enough : a ≡ suc a / 2 + (a - suc a / 2)
      enough = omega arith

bit_and-lowest : (a b : ℕ) → bit_and a b ≡ bit_and (a / 2) (b / 2) * 2 + min (a % 2) (b % 2)
bit_and-lowest a b =
    bit_and-bitwise a b
    ∙ lowest (λ b. zero) min a b (omega arith)
    ∙ ap (λ t. t * 2 + min (a % 2) (b % 2)) (sym (bit_and-bitwise (a / 2) (b / 2)))

bit_or-lowest : (a b : ℕ) → bit_or a b ≡ bit_or (a / 2) (b / 2) * 2 + max (a % 2) (b % 2)
bit_or-lowest a b =
    bit_or-bitwise a b
    ∙ lowest (λ b. b) max a b (omega arith)
    ∙ ap (λ t. t * 2 + max (a % 2) (b % 2)) (sym (bit_or-bitwise (a / 2) (b / 2)))

-- With 0, on `n` digits.
with_zero : (n a : ℕ) → a < 2 ^ n → (bit_and a 0 ≡ 0) × (bit_or a 0 ≡ a)
with_zero zero a h = let z : a ≡ 0 = omega arith in rw z (refl, refl)
with_zero (suc n) a h =
    let (and_half, or_half) = with_zero n (a / 2) (omega (arith, pow-suc 2 n)) in
    (omega (arith, bit_and-lowest a 0, and_half), omega (arith, bit_or-lowest a 0, or_half))

below_power : (a : ℕ) → a < 2 ^ a
below_power zero = omega arith
below_power (suc a) = omega (arith, pow-suc 2 a, below_power a)

-- A mask of ones is a remainder.
pub bit_and_1 : (a : ℕ) → bit_and a 1 ≡ a % 2
bit_and_1 a = omega (arith, bit_and-lowest a 1, (with_zero (a / 2) (a / 2) (below_power _)).0)

pub bit_and_3 : (a : ℕ) → bit_and a 3 ≡ a % 4
bit_and_3 a = omega (
  arith,
  bit_and-lowest a 3,
  bit_and-lowest (a / 2) 1,
  (with_zero (a / 2 / 2) (a / 2 / 2) (below_power _)).0,
)

pub bit_and_15 : (a : ℕ) → bit_and a 15 ≡ a % 16
bit_and_15 a = omega (arith, bit_and-lowest a 15, bit_and-lowest (a / 2) 7, bit_and_3 (a / 2 / 2))

pub bit_and_63 : (a : ℕ) → bit_and a 63 ≡ a % 64
bit_and_63 a = omega (arith, bit_and-lowest a 63, bit_and-lowest (a / 2) 31, bit_and_15 (a / 2 / 2))

pub bit_and_255 : (a : ℕ) → bit_and a 255 ≡ a % 256
bit_and_255 a =
    omega (arith, bit_and-lowest a 255, bit_and-lowest (a / 2) 127, bit_and_63 (a / 2 / 2))

-- An or of numbers with no common bit is their sum.
pub bit_or_disjoint : (k a b : ℕ) → b < 2 ^ k → bit_or (a * 2 ^ k) b ≡ a * 2 ^ k + b
bit_or_disjoint zero a b h =
    let z : b ≡ 0 = omega arith in
    rw z (omega (arith, (with_zero (a * 1) (a * 1) (below_power _)).1))
bit_or_disjoint (suc k) a b h =
    let fits : b / 2 < 2 ^ k = omega (arith, pow-suc 2 k) in
    rw pow-suc
      (omega (arith, bit_or-lowest (a * (2 ^ k * 2)) b, halves, bit_or_disjoint k a (b / 2) fits))
  where
    halves : bit_or (a * (2 ^ k * 2) / 2) (b / 2) ≡ bit_or (a * 2 ^ k) (b / 2)
    halves = ap (λ t. bit_or t (b / 2)) (omega arith)

-- A mask of one bit.
pub bit_and_power : (n a : ℕ) → bit_and a (2 ^ n) ≡ a / 2 ^ n % 2 * 2 ^ n
bit_and_power zero a = rw (bit_and_1 a) (omega arith)
bit_and_power (suc n) a =
    let power = 2 ^ n in
    let halves : bit_and (a / 2) (power * 2 / 2) ≡ a / 2 / power % 2 * power =
      ap (bit_and (a / 2)) (omega arith) ∙ bit_and_power n (a / 2) in
    let quotient : a / 2 / power ≡ a / (power * 2) =
      div-div-eq-div-mul a 2 power ∙ ap (λ d. a / d) (omega arith) in
    let doubled : bit_and a (power * 2) ≡ a / 2 / power % 2 * power * 2 =
      omega (arith, bit_and-lowest a (power * 2), halves) in
    rw pow-suc
      (doubled ∙ ap (λ q. q % 2 * power * 2) quotient ∙ mul_assoc (a / (power * 2) % 2) power 2)

-- The mask 6.
pub bit_and_6 : (a : ℕ) → bit_and a 6 ≡ a / 2 % 4 * 2
bit_and_6 a = omega (arith, bit_and-lowest a 6, bit_and_3 (a / 2))
