-- ===== src/AsyncOps/Waiter.antt =====
-- AsyncOps.cpp: a waiter that sleeps on the counter of its schedule, as the loop of
-- `wait_for_schedule_completion` has it, and the threads that change the counter. `wait` of an atomic
-- blocks only if the counter has the value that it is given, and a notified thread compares again. The
-- counter is an `i32`, kept as its bit pattern as in AsyncOps.
mod Tests
use iacore.Base.{
  ℕ, zero, suc, ◌+◌, ◌-◌, ◌%◌, ◌^◌, ◌<◌, ◌≤◌, ◌≡◌, refl, inl, inr, Bool-cases, ==→eq, ◌==◌,
  if◌then◌else◌, arith,
}
use iacore.AsyncOps.{is_positive}

-- Where the waiter is: at its test, past it, with the value that it loads then, asleep, out of the loop.
pub data Waiting : Type 0 where
  at_test looking : Waiting
  with_value : ℕ → Waiting
  sleeping_on : ℕ → Waiting
  done_waiting : Waiting

-- The counter, the notifications that threads have still to send after they have lowered it to 0, and
-- the waiter.
pub record Watched : Type 0 where
  pub counter : ℕ
  pub owed : ℕ
  pub waiter : Waiting

-- `schedule->counter.load() > 0`, the second load, and `wait`.
pub test_counter : ℕ → Waiting
test_counter counter = if is_positive counter then looking else done_waiting

pub load_value : ℕ → Waiting
load_value zero = at_test
load_value (suc n) = with_value (suc n)

pub wait_on : (counter value : ℕ) → Waiting
wait_on counter value = if counter == value then sleeping_on value else at_test

pub notified_waiter : ℕ → Waiting → Waiting
unfolding wait_on
notified_waiter counter at_test = at_test
notified_waiter counter looking = looking
notified_waiter counter (with_value v) = with_value v
notified_waiter counter (sleeping_on v) = wait_on counter v
notified_waiter counter done_waiting = done_waiting

-- The number is how many tasks the step adds to the schedule.
pub data WatchStep : ℕ → Watched → Watched → Type 0 where
  tests :
      {s : Watched}
      → s.waiter ≡ at_test
      → WatchStep 0 s (record s { waiter = test_counter s.counter })
  helps_out : {s : Watched} → s.waiter ≡ looking → WatchStep 0 s (record s { waiter = at_test })
  loads :
      {s : Watched}
      → s.waiter ≡ looking
      → WatchStep 0 s (record s { waiter = load_value s.counter })
  waits_on :
      {s : Watched} (v : ℕ)
      → s.waiter ≡ with_value v
      → WatchStep 0 s (record s { waiter = wait_on s.counter v })
  adds : {s : Watched} → WatchStep 1 s (record s { counter = (s.counter + 1) % 2 ^ 32 })
  lowers :
      {s : Watched}
      → 0 < s.counter
      → WatchStep 0 s (record s {
        counter = (s.counter + 2 ^ 32 - 1) % 2 ^ 32;
        owed = if s.counter == 1 then s.owed + 1 else s.owed;
      })
  notifies :
      {s : Watched} (n : ℕ)
      → s.owed ≡ n + 1
      → WatchStep 0 s (record s { owed = n; waiter = notified_waiter s.counter s.waiter })

-- The number is how many tasks were added to the schedule, with those that it has when the waiter comes.
pub data WatchReachable : ℕ → Watched → Type 0 where
  begins_waiting :
      (counter : ℕ)
      → WatchReachable counter (record { counter = counter; owed = 0; waiter = at_test })
  continues :
      {n k : ℕ} {s s' : Watched} → WatchReachable n s → WatchStep k s s' → WatchReachable (n + k) s'

-- The counter is positive or a notification is owed, and a value that the waiter holds is positive.
IsWatched : ℕ → ℕ → Waiting → Type 0
IsWatched counter owed at_test = Unit {0}
IsWatched counter owed looking = Unit {0}
IsWatched counter owed (with_value v) = 0 < v
IsWatched counter owed (sleeping_on v) = (0 < v) × (0 < counter + owed)
IsWatched counter owed done_waiting = Unit {0}

test_counter-IsWatched : (counter owed : ℕ) → IsWatched counter owed (test_counter counter)
unfolding IsWatched test_counter
test_counter-IsWatched counter owed = ground arith

load_value-IsWatched : (counter owed : ℕ) → IsWatched counter owed (load_value counter)
unfolding IsWatched load_value
load_value-IsWatched zero owed = tt
load_value-IsWatched (suc n) owed = omega arith

wait_on-IsWatched : (counter owed v : ℕ) → 0 < v → IsWatched counter owed (wait_on counter v)
unfolding IsWatched wait_on
wait_on-IsWatched counter owed v positive = elim (Bool-cases (counter == v)) [
  | inl same ↦ rw same (positive, omega (arith, ==→eq counter v same))
  | inr differ ↦ rw differ tt
]

-- A step of another thread keeps what is promised, if it keeps a positive counter or owes a notification.
other-IsWatched :
    (counter owed counter' owed' : ℕ) (w : Waiting)
    → (0 < counter + owed → 0 < counter' + owed')
    → IsWatched counter owed w
    → IsWatched counter' owed' w
unfolding IsWatched
other-IsWatched counter owed counter' owed' at_test keeps i = tt
other-IsWatched counter owed counter' owed' looking keeps i = tt
other-IsWatched counter owed counter' owed' (with_value v) keeps i = i
other-IsWatched counter owed counter' owed' (sleeping_on v) keeps i = (i.0, keeps i.1)
other-IsWatched counter owed counter' owed' done_waiting keeps i = tt

notified-IsWatched :
    (counter owed owed' : ℕ) (w : Waiting)
    → IsWatched counter owed w
    → IsWatched counter owed' (notified_waiter counter w)
unfolding IsWatched notified_waiter
notified-IsWatched counter owed owed' at_test i = tt
notified-IsWatched counter owed owed' looking i = tt
notified-IsWatched counter owed owed' (with_value v) i = i
notified-IsWatched counter owed owed' (sleeping_on v) i = wait_on-IsWatched counter owed' v i.0
notified-IsWatched counter owed owed' done_waiting i = tt

counter_le : {n : ℕ} {s : Watched} → WatchReachable n s → n < 2 ^ 31 → s.counter ≤ n
counter_le (begins_waiting counter) small = omega arith
counter_le (continues r (tests e)) small = omega (arith, counter_le r (omega arith))
counter_le (continues r (helps_out e)) small = omega (arith, counter_le r (omega arith))
counter_le (continues r (loads e)) small = omega (arith, counter_le r (omega arith))
counter_le (continues r (waits_on v e)) small = omega (arith, counter_le r (omega arith))
counter_le (continues r adds) small = omega (arith, counter_le r (omega arith))
counter_le (continues r (lowers pos)) small = omega (arith, counter_le r (omega arith))
counter_le (continues r (notifies k e)) small = omega (arith, counter_le r (omega arith))

WatchReachable-IsWatched :
    {n : ℕ} {s : Watched} → WatchReachable n s → n < 2 ^ 31 → IsWatched s.counter s.owed s.waiter
unfolding IsWatched
WatchReachable-IsWatched (begins_waiting counter) small = tt
WatchReachable-IsWatched (continues {s = s} r (tests e)) small =
    test_counter-IsWatched s.counter s.owed
WatchReachable-IsWatched (continues r (helps_out e)) small = tt
WatchReachable-IsWatched (continues {s = s} r (loads e)) small =
    load_value-IsWatched s.counter s.owed
WatchReachable-IsWatched (continues {s = s} r (waits_on v e)) small =
    wait_on-IsWatched s.counter s.owed v (rw e at (WatchReachable-IsWatched r (omega arith)))
WatchReachable-IsWatched (continues {s = s} r adds) small =
    other-IsWatched s.counter s.owed ((s.counter + 1) % 2 ^ 32) s.owed s.waiter
      (λ h. omega (arith, counter_le r (omega arith))) (WatchReachable-IsWatched r (omega arith))
WatchReachable-IsWatched (continues {s = s} r (lowers pos)) small =
    let le = counter_le r (omega arith) in
    other-IsWatched s.counter s.owed ((s.counter + 2 ^ 32 - 1) % 2 ^ 32)
      (if s.counter == 1 then s.owed + 1 else s.owed) s.waiter (λ h. ground arith)
      (WatchReachable-IsWatched r (omega arith))
WatchReachable-IsWatched (continues {s = s} r (notifies k e)) small =
    notified-IsWatched s.counter s.owed k s.waiter (WatchReachable-IsWatched r (omega arith))

-- A waiter does not sleep through the end of its schedule, in any interleaving in which fewer than 2 ^ 31 tasks are added
-- to it, so that the `i32` does not wrap around: when the waiter sleeps and the counter is 0, the thread that has lowered
-- it to 0 has its notification still to send.
pub sleeping_on-owed :
    {n : ℕ} {s : Watched} (v : ℕ)
    → WatchReachable n s
    → n < 2 ^ 31
    → s.waiter ≡ sleeping_on v
    → s.counter ≡ 0
    → 0 < s.owed
unfolding IsWatched
sleeping_on-owed v r small asleep over =
    let i = rw asleep at (WatchReachable-IsWatched r small) in omega (arith, i.1)

-- The waiter can leave its loop, after which its caller may destroy the schedule, while the thread that has lowered the
-- counter has its notification still to send.
pub early_leave : Watched
early_leave = record { counter = 0; owed = 1; waiter = done_waiting }

early_leave-WatchReachable : WatchReachable 1 early_leave
unfolding early_leave test_counter is_positive
early_leave-WatchReachable =
    continues (continues (begins_waiting 1) (lowers (omega arith))) (tests refl)
