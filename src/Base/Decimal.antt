-- ===== src/Base/Decimal.antt =====
-- Decimal text of the C++ library: `std::format("{}", n)` and `std::from_chars` for a `u32`.
use Prim.Native.Nat.{ℕ, zero, suc, ◌+◌, ◌-◌, ◌*◌, ◌/◌, ◌%◌, ◌^◌, ◌<◌}
use mathlib.Core.Path.{◌≡◌, refl, ap, ◌∙◌}
use mathlib.Core.Logic.{◌≢◌, inl, inr}
use mathlib.Core.Bool.{Bool, true, ◌&&◌}
use mathlib.Core.Option.{Option, none, some}
use mathlib.Core.List.{[], ◌∷◌}
use native.Mathlib.Nat.{pow-suc}
use native.Mathlib.Omega.{arith}
use iacore.Base.Tests.{ltb, leb, ◌==◌, if◌then◌else◌, Bool-cases}
use iacore.Base.Lists.{Bytes, All}

-- Digits before those of `out`, with fuel for the number of digits.
digits_onto : ℕ → ℕ → Bytes → Bytes
digits_onto zero n out = out
digits_onto (suc fuel) n out =
    let more = digits_onto fuel (n / 10) ((b'0' + n % 10) ∷ out) in
    if n / 10 == 0 then (b'0' + n % 10) ∷ out else more

-- A `u32` has at most ten digits.
unfoldable pub format_u32 : ℕ → Bytes
unfolding digits_onto
format_u32 n = digits_onto 10 n []

unfoldable pub is_digit : ℕ → Bool
is_digit c = leb b'0' c && leb c b'9'

-- The value of the digits up to the first character that is none.
scan_digits : Bytes → ℕ → ℕ
unfolding is_digit
scan_digits [] acc = acc
scan_digits (c ∷ s) acc =
    let more = scan_digits s (acc * 10 + (c - b'0')) in if is_digit c then more else acc

-- `none` for text that begins with no digit and for a number that is no `u32`.
unfoldable pub from_chars_u32 : Bytes → Option ℕ
unfolding scan_digits
from_chars_u32 [] = none
from_chars_u32 (c ∷ s) =
    let value = scan_digits (c ∷ s) 0 in
    if is_digit c then (if ltb value (2 ^ 32) then some value else none) else none

scan_last : (n : ℕ) (out : Bytes) → scan_digits ((b'0' + n % 10) ∷ out) (n / 10) ≡ scan_digits out n
unfolding scan_digits
scan_last n out = ground arith

leading : (n : ℕ) → n < 10 → 0 ≡ n / 10
leading n h = omega arith

scan_digits-digits_onto :
    (fuel n : ℕ) (out : Bytes)
    → n < 10 ^ suc fuel
    → scan_digits (digits_onto (suc fuel) n out) 0 ≡ scan_digits out n
unfolding digits_onto
scan_digits-digits_onto zero n out h =
    let small : (n / 10 == 0) ≡ true = ground arith in
    rw small
      (ap (λ t. scan_digits ((b'0' + n % 10) ∷ out) t) (leading n (omega arith)) ∙ scan_last n out)
scan_digits-digits_onto (suc fuel) n out h = elim (Bool-cases (n / 10 == 0)) [
  | inl small ↦
      rw small (
        ap (λ t. scan_digits ((b'0' + n % 10) ∷ out) t) (leading n (ground arith))
        ∙ scan_last n out)
  | inr large ↦ rw large (
      scan_digits-digits_onto fuel (n / 10) ((b'0' + n % 10) ∷ out)
        (omega (arith, pow-suc 10 (suc fuel)))
      ∙ scan_last n out)
]

-- Every character is a digit.
abbrev pub IsDecimal : Bytes → Type 0
IsDecimal = All (λ c. is_digit c ≡ true)

digit_IsDecimal : (n : ℕ) → is_digit (b'0' + n % 10) ≡ true
unfolding is_digit
digit_IsDecimal n = ground arith

digits_onto-IsDecimal :
    (fuel n : ℕ) (out : Bytes) → IsDecimal out → IsDecimal (digits_onto fuel n out)
unfolding digits_onto
digits_onto-IsDecimal zero n out h = h
digits_onto-IsDecimal (suc fuel) n out h = elim (Bool-cases (n / 10 == 0)) [
  | inl small ↦ rw small (digit_IsDecimal n, h)
  | inr large ↦
      rw large (digits_onto-IsDecimal fuel (n / 10) ((b'0' + n % 10) ∷ out) (digit_IsDecimal n, h))
]

pub format_u32-IsDecimal : (n : ℕ) → IsDecimal (format_u32 n)
unfolding format_u32
format_u32-IsDecimal n = digits_onto-IsDecimal 10 n [] tt

digits_onto-ne_nil : (fuel n : ℕ) (out : Bytes) → out ≢ [] → digits_onto fuel n out ≢ []
unfolding digits_onto
digits_onto-ne_nil zero n out h = h
digits_onto-ne_nil (suc fuel) n out h = elim (Bool-cases (n / 10 == 0)) [
  | inl small ↦ rw small (λ e. cc)
  | inr large ↦ rw large (digits_onto-ne_nil fuel (n / 10) ((b'0' + n % 10) ∷ out) (λ e. cc))
]

digits_suc-ne_nil : (fuel n : ℕ) (out : Bytes) → digits_onto (suc fuel) n out ≢ []
unfolding digits_onto
digits_suc-ne_nil fuel n out = elim (Bool-cases (n / 10 == 0)) [
  | inl small ↦ rw small (λ e. cc)
  | inr large ↦ rw large (digits_onto-ne_nil fuel (n / 10) ((b'0' + n % 10) ∷ out) (λ e. cc))
]

pub format_u32-ne_nil : (n : ℕ) → format_u32 n ≢ []
unfolding format_u32
format_u32-ne_nil n = digits_suc-ne_nil 9 n []

from_chars_of_digits :
    (s : Bytes)
    → s ≢ []
    → IsDecimal s
    → scan_digits s 0 < 2 ^ 32
    → from_chars_u32 s ≡ some (scan_digits s 0)
unfolding from_chars_u32
from_chars_of_digits [] ne d h = absurd (ne refl)
from_chars_of_digits (c ∷ s) ne d h = rw (d.0) (ground arith)

scan_digits-format_u32 : (n : ℕ) → n < 2 ^ 32 → scan_digits (format_u32 n) 0 ≡ n
unfolding format_u32 scan_digits
scan_digits-format_u32 n h = scan_digits-digits_onto 9 n [] (omega arith)

pub from_chars_u32-format_u32 : (n : ℕ) → n < 2 ^ 32 → from_chars_u32 (format_u32 n) ≡ some n
from_chars_u32-format_u32 n h =
    from_chars_of_digits (format_u32 n) (format_u32-ne_nil n) (format_u32-IsDecimal n)
      (omega (arith, value))
    ∙ ap some value
  where
    value : scan_digits (format_u32 n) 0 ≡ n
    value = scan_digits-format_u32 n h
