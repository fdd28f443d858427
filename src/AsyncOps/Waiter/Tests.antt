-- ===== src/AsyncOps/Waiter/Tests.antt =====
-- AsyncOps.cpp: a waiter that falls asleep while the last task of its schedule ends.
use iacore.Base.{◌<◌, refl, arith}
use iacore.AsyncOps.{is_positive}
use iacore.AsyncOps.Waiter.{
  Watched, sleeping_on, test_counter, load_value, wait_on, tests, loads, waits_on, lowers,
  WatchReachable, begins_waiting, continues, sleeping_on-owed,
}

abbrev asleep_at_end : Watched
asleep_at_end = record { counter = 0; owed = 1; waiter = sleeping_on 1 }

asleep_at_end-WatchReachable : WatchReachable 1 asleep_at_end
unfolding test_counter load_value wait_on is_positive
asleep_at_end-WatchReachable =
    let tested = continues (begins_waiting 1) (tests refl) in
    let held = continues tested (loads refl) in
    let asleep = continues held (waits_on 1 refl) in continues asleep (lowers (omega arith))

sleeping_on-owed_example : 0 < asleep_at_end.owed
sleeping_on-owed_example = sleeping_on-owed 1 asleep_at_end-WatchReachable (omega arith) refl refl
