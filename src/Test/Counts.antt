-- ===== src/Test/Counts.antt =====
-- IATest.hpp: what the counters of a runner count.
use iacore.Base.{
  ℕ, ◌+◌, ◌%◌, ◌≤◌, ◌<◌, ◌≡◌, refl, sym, ap, ◌∙◌, false, List, [], ◌∷◌, ◌++◌, inl, inr, length,
  length-append, ◌==◌, if◌then◌else◌, Bool-cases, arith,
}
use iacore.Test.{
  Checked, TestUnit, run_unit, Runner, usize_limit, new_runner, count_unit, run_units, Block,
  test_block, all_passed, some_failed, summarize, runner_of, run_entries, run_all, heading,
}

-- 1 for a unit that does not pass, and how many do not.
unfoldable pub fault : Checked → ℕ
fault c = if c.result then 0 else 1

unfoldable pub failing : List TestUnit → ℕ
unfolding fault
failing [] = 0
failing (u ∷ units) = fault (run_unit u) + failing units

unfoldable pub all_units : List Block → List TestUnit
all_units [] = []
all_units (b ∷ entries) = b.m_units ++ all_units entries

failing-append : (xs ys : List TestUnit) → failing (xs ++ ys) ≡ failing xs + failing ys
unfolding failing
failing-append [] ys = omega arith
failing-append (u ∷ xs) ys = omega (arith, failing-append xs ys)

fault-small : (c : Checked) → fault c ≤ 1
unfolding fault
fault-small c = ground arith

-- A unit that is counted while the counters have room.
count_unit-counts :
    (c : Checked) (r : Runner)
    → r.m_test_count + 1 < usize_limit
    → r.m_fail_count ≤ r.m_test_count
    → ((count_unit c r).m_test_count ≡ r.m_test_count + 1)
      × ((count_unit c r).m_fail_count ≡ r.m_fail_count + fault c)
      × ((count_unit c r).m_block_count ≡ r.m_block_count)
unfolding count_unit fault
count_unit-counts c r small less = (omega arith, ground arith, refl)

run_units-next :
    (u : TestUnit) (units : List TestUnit) (r : Runner)
    → run_units false (u ∷ units) r ≡ run_units false units (count_unit (run_unit u) r)
unfolding run_units
run_units-next u units r = elim (Bool-cases (run_unit u).result) [
  | inl passes ↦ simp passes refl
  | inr fails ↦ simp fails refl
]

-- A runner that never stops counts each unit once, and each that does not pass.
run_units-counts :
    (units : List TestUnit) (r : Runner)
    → r.m_test_count + length units < usize_limit
    → r.m_fail_count ≤ r.m_test_count
    → let after = runner_of (run_units false units r) in
      (after.m_test_count ≡ r.m_test_count + length units)
      × (after.m_fail_count ≡ r.m_fail_count + failing units)
      × (after.m_block_count ≡ r.m_block_count)
unfolding failing runner_of run_units
run_units-counts [] r small less = (omega arith, omega arith, refl)
run_units-counts (u ∷ units) r small less =
    let c = run_unit u in
    let (one, fault_one, same) = count_unit-counts c r (omega (arith, small)) less in
    let little = fault-small c in
    let (tests, fails, blocks) =
      run_units-counts units (count_unit c r) (omega (arith, small)) (omega arith) in
    let step = run_units-next u units r in
    (
      ap (λ e. (runner_of e).m_test_count) step ∙ omega arith,
      ap (λ e. (runner_of e).m_fail_count) step ∙ omega arith,
      ap (λ e. (runner_of e).m_block_count) step ∙ blocks ∙ same,
    )

failing-length : (units : List TestUnit) → failing units ≤ length units
unfolding failing
failing-length [] = omega arith
failing-length (u ∷ units) = omega (arith, fault-small (run_unit u), failing-length units)

run_entries-counts :
    (entries : List Block) (r : Runner)
    → r.m_test_count + length (all_units entries) < usize_limit
    → r.m_block_count + length entries < usize_limit
    → r.m_fail_count ≤ r.m_test_count
    → let after = run_entries entries r in
      (after.m_test_count ≡ r.m_test_count + length (all_units entries))
      × (after.m_fail_count ≡ r.m_fail_count + failing (all_units entries))
      × (after.m_block_count ≡ r.m_block_count + length entries)
unfolding run_entries test_block all_units failing
run_entries-counts [] r small few less = (omega arith, omega arith, omega arith)
run_entries-counts (b ∷ entries) r small few less =
    let opened : Runner = record r {
      m_block_count = (r.m_block_count + 1) % usize_limit;
      printed = r.printed ++ heading b.get_name ∷ [];
    } in
    let lengths = length-append b.m_units (all_units entries) in
    let (tests, fails, blocks) = run_units-counts b.m_units opened (omega (arith, small)) less in
    let bounded = failing-length b.m_units in
    let (tests', fails', blocks') =
      run_entries-counts entries (runner_of (run_units false b.m_units opened))
        (omega (arith, small)) (omega (arith, few)) (omega arith) in
    (omega arith, omega (arith, failing-append b.m_units (all_units entries)), omega (arith, few))

summarize-of :
    (r : Runner) (tests fails blocks : ℕ)
    → r.m_test_count ≡ tests
    → r.m_fail_count ≡ fails
    → r.m_block_count ≡ blocks
    → summarize r ≡ record {
      verdict = if fails == 0 then all_passed else some_failed fails tests;
      tests = tests;
      blocks = blocks;
    }
unfolding summarize
summarize-of r tests fails blocks same_tests same_fails same_blocks =
    rw (sym same_tests) (rw (sym same_fails) (rw (sym same_blocks) refl))

-- After `run_all` the summary counts each unit of each registered block once, and each block; it says that all tests have
-- passed exactly when every unit passes, and otherwise how many do not. `run_all` returns 0 in every case, also when tests
-- have failed. There are fewer than 2 ^ 64 units and blocks.
pub run_all_lem :
    (entries : List Block)
    → length (all_units entries) < usize_limit
    → length entries < usize_limit
    → run_all entries ≡ (
      0,
      record {
        verdict =
            if failing (all_units entries) == 0
            then all_passed
            else some_failed (failing (all_units entries)) (length (all_units entries));
        tests = length (all_units entries);
        blocks = length entries;
      },
    )
unfolding run_all new_runner
run_all_lem entries small few =
    let (tests, fails, blocks) =
      run_entries-counts entries new_runner (omega (arith, small)) (omega (arith, few))
        (omega arith) in
    ap (λ s. (0, s))
      (summarize-of (run_entries entries new_runner) (length (all_units entries))
        (failing (all_units entries)) (length entries) (omega arith) (omega arith) (omega arith))
