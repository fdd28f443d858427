-- ===== src/Test/Stops.antt =====
-- IATest.hpp: a runner with `StopOnFail`.
use iacore.Base.{
  ℕ, ◌+◌, ◌%◌, ◌<◌, ◌≡◌, refl, Bool, true, false, not, List, [], ◌∷◌, inl, inr, ◌==◌, if◌then◌else◌,
  Bool-cases, arith,
}
use iacore.Test.{
  TestUnit, run_unit, Runner, usize_limit, Ended, goes_on, exits, count_unit, run_units, Block,
  test_block, runner_of,
}
use iacore.Test.Counts.{failing, fault}

pub exited : Ended → Bool
exited (goes_on r) = false
exited (exits r) = true

run_units-passes :
    (u : TestUnit) (units : List TestUnit) (r : Runner)
    → (run_unit u).result ≡ true
    → (run_units true (u ∷ units) r ≡ run_units true units (count_unit (run_unit u) r))
      × (failing (u ∷ units) ≡ failing units)
      × ((count_unit (run_unit u) r).m_fail_count ≡ r.m_fail_count)
unfolding run_units failing fault count_unit
run_units-passes u units r passes = (simp passes refl, simp passes (omega arith), simp passes refl)

run_units-fails :
    (u : TestUnit) (units : List TestUnit) (r : Runner)
    → (run_unit u).result ≡ false
    → (run_units true (u ∷ units) r ≡ exits (count_unit (run_unit u) r))
      × (failing (u ∷ units) ≡ 1 + failing units)
      × ((count_unit (run_unit u) r).m_fail_count ≡ (r.m_fail_count + 1) % usize_limit)
unfolding run_units failing fault count_unit
run_units-fails u units r fails = (simp fails refl, simp fails refl, simp fails refl)

-- What is promised of the end of a block, with the number of its units that do not pass.
StopsWith : ℕ → Runner → Ended → Type 0
StopsWith failures r after =
    (exited after ≡ not (failures == 0))
    × ((runner_of after).m_fail_count ≡ r.m_fail_count + (if failures == 0 then 0 else 1))

nothing_fails : (r : Runner) → StopsWith (failing []) r (run_units true [] r)
unfolding StopsWith run_units failing exited runner_of
nothing_fails r = (refl, omega arith)

run_units-StopsWith :
    (units : List TestUnit) (r : Runner)
    → r.m_fail_count + 1 < usize_limit
    → StopsWith (failing units) r (run_units true units r)
unfolding StopsWith exited runner_of
run_units-StopsWith [] r small = nothing_fails r
run_units-StopsWith (u ∷ units) r small = elim (Bool-cases (run_unit u).result) [
  | inl passes ↦
      let (run, count, same) = run_units-passes u units r passes in
      let (stop, fails) =
        run_units-StopsWith units (count_unit (run_unit u) r) (omega (arith, small, same)) in
      rw run (rw count (stop, omega (arith, fails, same)))
  | inr fails ↦
      let (run, count, same) = run_units-fails u units r fails in
      rw run (ground (arith, count), ground (arith, count, same))
]

-- A runner with `StopOnFail` exits in a block exactly when some unit of it does not pass, and then it has counted one
-- failure more than before the block. The counter has room for one more.
pub test_block-stops :
    (b : Block) (r : Runner)
    → r.m_fail_count + 1 < usize_limit
    → let after = test_block true b r in
      (exited after ≡ not (failing b.m_units == 0))
      × ((runner_of after).m_fail_count
          ≡ r.m_fail_count + (if failing b.m_units == 0 then 0 else 1))
unfolding test_block StopsWith
test_block-stops b r small = run_units-StopsWith b.m_units _ small
