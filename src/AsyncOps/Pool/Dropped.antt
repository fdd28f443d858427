-- ===== src/AsyncOps/Pool/Dropped.antt =====
-- AsyncOps.cpp: the tasks that `terminate_scheduler` leaves in the queues.
use iacore.Base.{
  ℕ, ◌+◌, ◌*◌, ◌≤◌, ◌<◌, ◌≡◌, ◌⊎◌, refl, ap, Bool, true, false, inl, inr, List, [], ◌∷◌, ◌++◌,
  arith,
}
use iacore.AsyncOps.{finish_task}
use iacore.AsyncOps.Pool.{
  Place, at_head, locking, deciding, asleep, busy, gone, Worker, size, total, present, unstopped,
  holding, remaining, Pool, joining, Works, tests_stop, finds_nothing, takes, blocks, returns,
  returned, requests, notifies_all, joins, at_place, test_stop, found_nothing, move, notify_all,
}
use iacore.AsyncOps.Pool.Counts.{
  total-move, queued, take_task-begins, sleeping-notify_all, holding-notify_all,
  unstopped-notify_all,
}
use iacore.AsyncOps.Pool.Shutdown.{Run, stays, then, IsLeaving, working, stopped-true, Works-none}
use iacore.AsyncOps.Pool.Stops.{Run-IsLeaving, size-notify_all, notified-returns}

-- Whether a worker is past the head of its loop, on its way to the queues.
unfoldable pub locks : Place → ℕ
locks at_head = 0
locks locking = 1
locks deciding = 0
locks asleep = 0
locks (busy t) = 0
locks gone = 0

abbrev pub locked : List Worker → ℕ
locked = total (λ w. locks w.place)

locks-bound : (place : Place) → locks place ≤ present place
unfolding locks present
locks-bound at_head = omega arith
locks-bound locking = omega arith
locks-bound deciding = omega arith
locks-bound asleep = omega arith
locks-bound (busy t) = omega arith
locks-bound gone = omega arith

locked-remaining : (workers : List Worker) → locked workers ≤ remaining workers
unfolding total
locked-remaining [] = omega arith
locked-remaining (w ∷ workers) = omega (arith, locks-bound w.place, locked-remaining workers)

present-one : (place : Place) → present place ≤ 1
unfolding present
present-one at_head = omega arith
present-one locking = omega arith
present-one deciding = omega arith
present-one asleep = omega arith
present-one (busy t) = omega arith
present-one gone = omega arith

locked-size : (workers : List Worker) → locked workers ≤ size workers
unfolding total size
locked-size [] = omega arith
locked-size (w ∷ workers) =
    omega (arith, locks-bound w.place, present-one w.place, locked-size workers)

locked-move :
    (workers before after : List Worker) (place place' : Place) (stop : Bool)
    → workers ≡ before ++ at_place place stop ∷ after
    → locked (before ++ at_place place' stop ∷ after) + locks place ≡ locked workers + locks place'
unfolding at_place
locked-move workers before after place place' stop e =
    total-move (λ w. locks w.place) workers before after (at_place place stop)
      (at_place place' stop) e

-- A task leaves the queues only with a worker that was on its way to them.
Works-kept :
    {p p' : Pool}
    → Works p p'
    → IsLeaving p
    → queued p.scheduler + locked p'.workers ≤ queued p'.scheduler + locked p.workers
unfolding move IsLeaving locks test_stop found_nothing queued finish_task total
Works-kept {p} (tests_stop before after false e) (closer, asked, none, free) =
    let asked' = stopped-true p.workers before after at_head false asked e in cc
Works-kept {p} (tests_stop before after true e) (closer, asked, none, free) =
    omega (arith, locked-move p.workers before after at_head gone true e)
Works-kept {p} (finds_nothing before after false e idle found) (closer, asked, none, free) =
    let asked' = stopped-true p.workers before after locking false asked e in cc
Works-kept {p} (finds_nothing before after true e idle found) (closer, asked, none, free) =
    omega (arith, locked-move p.workers before after locking gone true e)
Works-kept {p} (takes before after stop t others s e idle found same) (closer, asked, none, free) =
    omega (
      arith,
      locked-move p.workers before after locking (busy t) stop e,
      take_task-begins p.scheduler s found,
    )
Works-kept {p} (blocks before after stop e) (closer, asked, none, free) =
    omega (arith, locked-move p.workers before after deciding asleep stop e)
Works-kept {p} (returns before after stop t later earlier e running) (closer, asked, none, free) =
    omega (arith, locked-move p.workers before after (busy t) at_head stop e)
Works-kept (requests e some) (closer, asked, none, free) = cc
Works-kept (notifies_all e asked') (closer, asked, none, free) = cc
Works-kept {p} (joins e left) (closer, asked, none, free) =
    omega (arith, locked-remaining p.workers)

Run-kept :
    {n : ℕ} {p p' : Pool}
    → Run n p p'
    → IsLeaving p
    → queued p.scheduler + locked p'.workers ≤ queued p'.scheduler + locked p.workers
unfolding size
Run-kept stays i = omega arith
Run-kept (then run step) i = elim (Run-IsLeaving run i) [
  | inl (i', fewer) ↦ omega (arith, Run-kept run i, Works-kept step i')
  | inr (over, none, few) ↦ absurd (omega (arith, Works-none step over (ap size none)))
]

notified-kept :
    (p : Pool)
    → total unstopped p.workers ≡ 0
    → holding p.workers ≡ 0
    → {n : ℕ} {p' : Pool} → Run n (record p { workers = notify_all p.workers; closer = joining }) p'
    → queued p.scheduler ≤ queued p'.scheduler + size p.workers
unfolding IsLeaving queued
notified-kept p asked free run =
    let ws = p.workers in
    let leaving : IsLeaving (record p { workers = notify_all ws; closer = joining }) = (
      refl,
      omega (arith, asked, unstopped-notify_all ws),
      sleeping-notify_all ws,
      omega (arith, free, holding-notify_all ws),
    ) in
    omega (arith, Run-kept run leaving, locked-size (notify_all ws), size-notify_all ws)

-- When every worker has been asked to stop, and none is between its test and its sleep at the notification of
-- `terminate_scheduler`, then every run of the workers after it has at most 3 steps for each of them and one more; at its
-- end `terminate_scheduler` has returned with no worker left, or a step is possible, or a worker is in a task, which may
-- not return; and in all the run the workers have taken at most one task each, all others are still in the queues.
pub notified-ends :
    (p : Pool)
    → total unstopped p.workers ≡ 0
    → holding p.workers ≡ 0
    → {n : ℕ} {p' : Pool} → Run n (record p { workers = notify_all p.workers; closer = joining }) p'
    → (n ≤ 3 * size p.workers + 1)
      × (((p'.closer ≡ returned) × (p'.workers ≡ []))
          ⊎ (((p'' : Pool) × Works p' p'') ⊎ (0 < working p'.workers)))
      × (queued p.scheduler ≤ queued p'.scheduler + size p.workers)
notified-ends p asked free run =
    let (bound, end) = notified-returns p asked free run in
    (bound, end, notified-kept p asked free run)
