-- ===== src/Test/Examples.antt =====
-- IATest.hpp: a registry of two blocks, a runner that stops, and numbers with one that is none.
use iacore.Base.{
  ℕ, ◌-◌, ◌*◌, ◌≡◌, refl, Bool, true, false, Option, none, some, [], ◌∷◌, codes, ltb, ◌==◌,
  if◌then◌else◌, arith,
}
use iacore.Test.{
  test, test_not, checks, throws, TestUnit, Block, some_failed, run_all, run_unit, run_acts,
}
use iacore.Test.Counts.{failing, all_units, run_all_lem}
use iacore.Test.Approx.{Floats, IsNan}

abbrev good_unit : TestUnit
good_unit = record {
  name = codes "good";
  functor = checks (test true (codes "t")) ∷ checks (test_not false (codes "n")) ∷ [];
}

abbrev bad_unit : TestUnit
bad_unit = record {
  name = codes "bad";
  functor = checks (test true (codes "t")) ∷ throws (codes "oops") ∷ [];
}

abbrev first_block : Block
first_block = record { get_name = codes "first"; m_units = good_unit ∷ bad_unit ∷ [] }

abbrev second_block : Block
second_block = record { get_name = codes "second"; m_units = good_unit ∷ [] }

one_of_three :
    run_all (first_block ∷ second_block ∷ [])
    ≡ (0, record { verdict = some_failed 1 3; tests = 3; blocks = 2 })
unfolding run_all test test_not
one_of_three = refl

run_all_lem_example :
    run_all (first_block ∷ second_block ∷ [])
    ≡ (0, record { verdict = some_failed 1 3; tests = 3; blocks = 2 })
unfolding all_units failing run_unit run_acts test test_not
run_all_lem_example = run_all_lem (first_block ∷ second_block ∷ []) (omega arith) (omega arith)

-- Natural numbers, and one that is none.
combined : (ℕ → ℕ → ℕ) → Option ℕ → Option ℕ → Option ℕ
combined f none y = none
combined f (some x) none = none
combined f (some x) (some y) = some (f x y)

compared : (ℕ → ℕ → Bool) → Option ℕ → Option ℕ → Bool
compared f none y = false
compared f (some x) none = false
compared f (some x) (some y) = f x y

abbrev some_floats : Floats
some_floats = record {
  Float = Option ℕ;
  zero_float = some 0;
  equals = compared (λ x y. x == y);
  exceeds = compared (λ x y. ltb y x);
  minus = combined (λ x y. if ltb x y then y - x else x - y);
  abs = λ x. x;
  maximum = λ x y. if compared (λ a b. ltb a b) x y then y else x;
  times = combined (λ x y. x * y);
  text = λ x. [];
}

combined-none : (x : Option ℕ) → some_floats.minus x none ≡ none
unfolding combined
combined-none none = refl
combined-none (some x) = refl

none-IsNan : IsNan some_floats none
unfolding compared combined
none-IsNan = record {
  exceeds_nothing = λ x. refl;
  minus_left = λ x. refl;
  minus_right = combined-none;
  abs_nan = refl;
}
