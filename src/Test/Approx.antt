-- ===== src/Test/Approx.antt =====
-- IATest.hpp: `_test_approx`. The floating-point numbers and their operations are the parameter
-- `Floats`; of a number that is none, IEEE 754 says that it exceeds nothing
-- and makes a difference and an absolute value that are none.
use iacore.Base.{
  ◌≡◌, refl, ap, ◌∙◌, Bool, true, false, ◌||◌, inl, inr, [], Bytes, if◌then◌else◌, Bool-cases,
}
use iacore.Test.{Checked, print_fail}

pub record Floats : Type 1 where
  pub Float : Type 0
  pub zero_float : Float
  pub equals : Float → Float → Bool
  pub exceeds : Float → Float → Bool
  pub minus : Float → Float → Float
  pub abs : Float → Float
  pub maximum : Float → Float → Float
  pub times : Float → Float → Float
  pub text : Float → Bytes

pub record IsNan (F : Floats) (nan : F.Float) : Type 0 where
  pub exceeds_nothing : (x : F.Float) → F.exceeds nan x ≡ false
  pub minus_left : (x : F.Float) → F.minus nan x ≡ nan
  pub minus_right : (x : F.Float) → F.minus x nan ≡ nan
  pub abs_nan : F.abs nan ≡ nan

pub test_approx : (F : Floats) → F.Float → F.Float → Bytes → F.Float → Checked
unfolding print_fail
test_approx F lhs rhs description epsilon =
    let diff = F.abs (F.minus lhs rhs) in
    let larger = F.maximum (F.abs lhs) (F.abs rhs) in
    let fails : Checked = record {
      result = false;
      printed = print_fail description (F.text lhs) (F.text rhs);
    } in
    let passes : Checked = record { result = true; printed = [] } in
    if F.equals lhs F.zero_float || F.equals rhs F.zero_float
    then (if F.exceeds diff epsilon then fails else passes)
    else (if F.exceeds diff (F.times larger epsilon) then fails else passes)

passes-exceeds :
    (F : Floats) (lhs rhs : F.Float) (description : Bytes) (epsilon : F.Float)
    → ((bound : F.Float) → F.exceeds (F.abs (F.minus lhs rhs)) bound ≡ false)
    → (test_approx F lhs rhs description epsilon).result ≡ true
unfolding test_approx
passes-exceeds F lhs rhs description epsilon never =
    elim (Bool-cases (F.equals lhs F.zero_float || F.equals rhs F.zero_float)) [
      | inl some_zero ↦ simp some_zero (simp (never epsilon) refl)
      | inr no_zero ↦
          simp no_zero (simp (never (F.times (F.maximum (F.abs lhs) (F.abs rhs)) epsilon)) refl)
    ]

-- `_test_approx` passes whenever one of its two values is not a number, whatever the other is.
pub test_approx-nan :
    (F : Floats) (nan x : F.Float) (description : Bytes) (epsilon : F.Float)
    → IsNan F nan
    → ((test_approx F nan x description epsilon).result ≡ true)
      × ((test_approx F x nan description epsilon).result ≡ true)
test_approx-nan F nan x description epsilon is_nan = (
  passes-exceeds F nan x description epsilon (λ bound.
      ap (λ d. F.exceeds d bound) (ap F.abs (is_nan.minus_left x) ∙ is_nan.abs_nan)
      ∙ is_nan.exceeds_nothing bound),
  passes-exceeds F x nan description epsilon (λ bound.
      ap (λ d. F.exceeds d bound) (ap F.abs (is_nan.minus_right x) ∙ is_nan.abs_nan)
      ∙ is_nan.exceeds_nothing bound),
)
