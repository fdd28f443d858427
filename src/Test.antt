-- ===== src/Test.antt =====
-- Src/IACore/inc/IACore/IATest.hpp: the test framework. What a check is given is an argument, and so
-- is the text of a value; a unit is the list of what it does in its order. Colours and the names of
-- the verbose mode are left out of what is printed, and so is the rate of success, which is a
-- floating-point number; the checks of nearness are in Test/Approx.
pub mod Counts
pub mod Stops
pub mod Approx
mod Examples
use iacore.Base.{
  ℕ, ◌+◌, ◌%◌, ◌^◌, ◌≡◌, Bool, true, false, not, List, [], ◌∷◌, ◌++◌, Bytes, codes, ◌==◌,
  if◌then◌else◌,
}

-- A line that the framework prints.
pub data Line : Type 0 where
  failed expected actual : Bytes → Line
  exception : (name what : Bytes) → Line
  unknown_exception : (name : Bytes) → Line
  heading : (block : Bytes) → Line

-- What a check returns, and what it has printed.
pub record Checked : Type 0 where
  pub result : Bool
  pub printed : List Line

pub print_fail : (description v1 v2 : Bytes) → List Line
print_fail description v1 v2 = failed description ∷ expected v2 ∷ actual v1 ∷ []

-- `_test`, `_test_not`, and with the values' comparison and texts `_test_eq`, `_test_neq`.
pub test : Bool → Bytes → Checked
test value description =
    if not value
    then record { result = false; printed = failed description ∷ [] }
    else record { result = true; printed = [] }

pub test_not : Bool → Bytes → Checked
test_not value description =
    if value
    then record { result = false; printed = failed description ∷ [] }
    else record { result = true; printed = [] }

pub test_eq : {A B : Type 0} → (A → B → Bool) → (A → Bytes) → (B → Bytes) → A → B → Bytes → Checked
unfolding print_fail
test_eq differs text_a text_b lhs rhs description =
    if differs lhs rhs
    then record { result = false; printed = print_fail description (text_a lhs) (text_b rhs) }
    else record { result = true; printed = [] }

pub test_neq : {A B : Type 0} → (A → B → Bool) → (A → Bytes) → (B → Bytes) → A → B → Bytes → Checked
unfolding print_fail
test_neq equals text_a text_b lhs rhs description =
    if equals lhs rhs
    then record {
      result = false;
      printed = print_fail description (text_a lhs) (codes "NOT " ++ text_b rhs);
    }
    else record { result = true; printed = [] }

-- What a unit does: a check in one of the macros, which returns false when it fails, or an exception.
pub data Act : Type 0 where
  checks : Checked → Act
  throws : (what : Bytes) → Act
  throws_other : Act

pub record TestUnit : Type 0 where
  pub name : Bytes
  pub functor : List Act

-- The functor of a unit in the `try` of `test_block`.
pub run_acts : Bytes → List Act → Checked
run_acts name [] = record { result = true; printed = [] }
run_acts name (throws what ∷ acts) = record { result = false; printed = exception name what ∷ [] }
run_acts name (throws_other ∷ acts) = record {
  result = false;
  printed = unknown_exception name ∷ [];
}
run_acts name (checks c ∷ acts) =
    let rest = run_acts name acts in
    if c.result
    then record { result = rest.result; printed = c.printed ++ rest.printed }
    else record { result = false; printed = c.printed }

pub run_unit : TestUnit → Checked
unfolding run_acts
run_unit u = run_acts u.name u.functor

-- The counters of a Runner, which are `usize`, and what it has printed.
pub record Runner : Type 0 where
  pub m_test_count : ℕ
  pub m_fail_count : ℕ
  pub m_block_count : ℕ
  pub printed : List Line

abbrev pub usize_limit : ℕ
usize_limit = 2 ^ 64

pub new_runner : Runner
new_runner = record { m_test_count = 0; m_fail_count = 0; m_block_count = 0; printed = [] }

-- A runner that goes on, or one that has called `exit`.
pub data Ended : Type 0 where
  goes_on : Runner → Ended
  exits : Runner → Ended

pub count_unit : Checked → Runner → Runner
count_unit c r = record r {
  m_test_count = (r.m_test_count + 1) % usize_limit;
  m_fail_count = if c.result then r.m_fail_count else (r.m_fail_count + 1) % usize_limit;
  printed = r.printed ++ c.printed;
}

-- The loop of `test_block`.
pub run_units : (stop_on_fail : Bool) → List TestUnit → Runner → Ended
unfolding run_unit count_unit
run_units stop_on_fail [] r = goes_on r
run_units stop_on_fail (u ∷ units) r =
    let c = run_unit u in
    let counted = count_unit c r in
    let rest = run_units stop_on_fail units counted in
    if c.result then rest else if stop_on_fail then exits counted else rest

-- A block: its name and the units that `declare_tests` adds.
pub record Block : Type 0 where
  pub get_name : Bytes
  pub m_units : List TestUnit

pub test_block : (stop_on_fail : Bool) → Block → Runner → Ended
unfolding run_units
test_block stop_on_fail b r = run_units stop_on_fail b.m_units (record r {
  m_block_count = (r.m_block_count + 1) % usize_limit;
  printed = r.printed ++ heading b.get_name ∷ [];
})

-- What `summarize` prints: whether all tests have passed, how many have failed if not, and how many
-- tests and blocks there were.
pub data Verdict : Type 0 where
  all_passed : Verdict
  some_failed : (fail_count test_count : ℕ) → Verdict

pub record Summary : Type 0 where
  pub verdict : Verdict
  pub tests : ℕ
  pub blocks : ℕ

pub summarize : Runner → Summary
summarize r = record {
  verdict = if r.m_fail_count == 0 then all_passed else some_failed r.m_fail_count r.m_test_count;
  tests = r.m_test_count;
  blocks = r.m_block_count;
}

-- The entries of the TestRegistry are blocks, in the order of their registration; a DefaultRunner
-- never stops.
pub auto_register : Block → List Block → List Block
auto_register b entries = entries ++ b ∷ []

pub runner_of : Ended → Runner
runner_of (goes_on r) = r
runner_of (exits r) = r

pub run_entries : List Block → Runner → Runner
unfolding test_block runner_of
run_entries [] r = r
run_entries (b ∷ entries) r = run_entries entries (runner_of (test_block false b r))

-- `run_all`: what it returns, and what the destructor of its runner prints.
pub run_all : List Block → ℕ × Summary
unfolding run_entries new_runner summarize
run_all entries = (0, summarize (run_entries entries new_runner))
