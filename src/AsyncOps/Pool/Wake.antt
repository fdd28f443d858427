-- ===== src/AsyncOps/Pool/Wake.antt =====
-- AsyncOps.cpp: a pool is an implementation of the scheduler, and no queued task is forgotten while
-- `terminate_scheduler` is not called.
use iacore.Base.{
  ℕ, zero, suc, ◌+◌, ◌≤◌, ◌<◌, ◌≡◌, refl, ap, Bool, true, false, ◌⊎◌, inl, inr, List, [], ◌∷◌, ◌++◌,
  length, arith,
}
use iacore.AsyncOps.{high, normal, put_task, count_task, finish_task, start_count, worker_ids}
use iacore.AsyncOps.Counters.{wait_round-runs}
use iacore.AsyncOps.Pool.{
  Place, at_head, locking, deciding, asleep, busy, gone, Worker, size, total, holds, sleeps,
  unstopped, holding, sleeping, Pool, not_called, Works, tests_stop, finds_nothing, takes, blocks,
  returns, requests, notifies_all, joins, Calls, counts_task, puts_task, wakes, wakes_nobody,
  cancels_tag, helps, helped, terminates, PoolReachable, starts, works_on, called, at_place,
  test_stop, found_nothing, initialize_scheduler, start_workers, move,
}
use iacore.AsyncOps.Pool.Counts.{
  total-middle, size-middle, total-move, size-move, queued, take_task-begins, take_task-nothing,
  queued-cancel,
}
use iacore.AsyncOps.Cancel.{start_count_lem}

-- 1 for a worker that will look at the queues again without being woken, and how many do.
unfoldable pub attends : Place → ℕ
attends at_head = 1
attends locking = 1
attends deciding = 0
attends asleep = 0
attends (busy t) = 1
attends gone = 0

abbrev pub attending : List Worker → ℕ
attending = total (λ w. attends w.place)

-- While nobody has called `terminate_scheduler`.
pub IsAttended : Pool → Type 0
IsAttended p =
    (0 < size p.workers)
    × (total unstopped p.workers ≡ size p.workers)
    × (attending p.workers + sleeping p.workers + holding p.workers ≡ size p.workers)
    × ((queued p.scheduler ≡ 0) ⊎ ((holding p.workers ≡ 0) × (0 < p.unsent + attending p.workers)))

unstopped-size : (workers : List Worker) → total unstopped workers ≤ size workers
unfolding total size unstopped
unstopped-size [] = omega arith
unstopped-size (w ∷ workers) = ground (arith, unstopped-size workers)

-- If nobody has been asked to stop, then none of them has.
unstopped-false :
    (workers before after : List Worker) (place : Place) (stop : Bool)
    → total unstopped workers ≡ size workers
    → workers ≡ before ++ at_place place stop ∷ after
    → stop ≡ false
unfolding unstopped at_place
unstopped-false workers before after place false all e = refl
unstopped-false workers before after place true all e = absurd (
    omega (
      arith,
      all,
      ap (total unstopped) e,
      ap size e,
      total-middle unstopped before after (at_place place true),
      size-middle before after (at_place place true),
      unstopped-size (before ++ after),
    ))

-- What a move does to the numbers of the invariant.
move_lem :
    (workers before after : List Worker) (place place' : Place) (stop : Bool)
    → workers ≡ before ++ at_place place stop ∷ after
    → let workers' = before ++ at_place place' stop ∷ after in
      (size workers' ≡ size workers)
      × (total unstopped workers' ≡ total unstopped workers)
      × (attending workers' + attends place ≡ attending workers + attends place')
      × (sleeping workers' + sleeps place ≡ sleeping workers + sleeps place')
      × (holding workers' + holds place ≡ holding workers + holds place')
      × (attends place' ≤ attending workers')
      × (holds place ≤ holding workers)
unfolding at_place unstopped
move_lem workers before after place place' stop e =
    let w = at_place place stop in
    let w' = at_place place' stop in
    (
      size-move workers before after w w' e,
      omega (arith, total-move unstopped workers before after w w' e),
      total-move (λ v. attends v.place) workers before after w w' e,
      total-move (λ v. sleeps v.place) workers before after w w' e,
      total-move (λ v. holds v.place) workers before after w w' e,
      omega (arith, total-middle (λ v. attends v.place) before after w'),
      omega (arith, ap holding e, total-middle (λ v. holds v.place) before after w),
    )

Works-IsAttended :
    {p p' : Pool} → Works p p' → p'.closer ≡ not_called → IsAttended p → IsAttended p'
unfolding move IsAttended attends sleeps holds test_stop found_nothing queued finish_task
Works-IsAttended {p} (tests_stop before after true e) uncalled (many, all, here, left) =
    let asked = unstopped-false p.workers before after at_head true all e in cc
Works-IsAttended {p} (tests_stop before after false e) uncalled (many, all, here, left) =
    let (s1, s2, s3, s4, s5, s6, s7) = move_lem p.workers before after at_head locking false e in
    (omega arith, omega arith, omega arith, ground arith)
Works-IsAttended {p} (finds_nothing before after true e free none) uncalled
      (many, all, here, left) =
    let asked = unstopped-false p.workers before after locking true all e in cc
Works-IsAttended {p} (finds_nothing before after false e free none) uncalled
      (many, all, here, left) =
    let (s1, s2, s3, s4, s5, s6, s7) = move_lem p.workers before after locking deciding false e in
    (omega arith, omega arith, omega arith, inl (take_task-nothing p.scheduler none))
Works-IsAttended {p} (takes before after stop t others s e free some same) uncalled
      (many, all, here, left) =
    let (s1, s2, s3, s4, s5, s6, s7) = move_lem p.workers before after locking (busy t) stop e in
    (omega arith, omega arith, omega arith, inr (omega arith, omega arith))
Works-IsAttended {p} (blocks before after stop e) uncalled (many, all, here, left) =
    let (s1, s2, s3, s4, s5, s6, s7) = move_lem p.workers before after deciding asleep stop e in
    (omega arith, omega arith, omega arith, ground arith)
Works-IsAttended {p} (returns before after stop t later earlier e running) uncalled
      (many, all, here, left) =
    let (s1, s2, s3, s4, s5, s6, s7) = move_lem p.workers before after (busy t) at_head stop e in
    (omega arith, omega arith, omega arith, ground arith)
Works-IsAttended (requests e some) uncalled i = cc
Works-IsAttended (notifies_all e none) uncalled i = cc
Works-IsAttended (joins e none) uncalled i = cc

Calls-IsAttended :
    {p p' : Pool} → Calls p p' → p'.closer ≡ not_called → IsAttended p → IsAttended p'
unfolding move IsAttended attends sleeps holds queued finish_task count_task put_task
Calls-IsAttended (counts_task priority t some) uncalled i = i
Calls-IsAttended (puts_task before after high t e free) uncalled (many, all, here, left) =
    (many, all, here, inr (free, omega arith))
Calls-IsAttended (puts_task before after normal t e free) uncalled (many, all, here, left) =
    (many, all, here, inr (free, omega arith))
Calls-IsAttended {p} (wakes n before after stop sent e) uncalled (many, all, here, left) =
    let (s1, s2, s3, s4, s5, s6, s7) = move_lem p.workers before after asleep locking stop e in
    (omega arith, omega arith, omega arith, ground arith)
Calls-IsAttended (wakes_nobody n sent none) uncalled (many, all, here, left) =
    (many, all, here, ground arith)
Calls-IsAttended {p} (cancels_tag tag free) uncalled (many, all, here, left) =
    (many, all, here, ground (arith, queued-cancel tag p.scheduler))
Calls-IsAttended {p} (helps schedule s some free e) uncalled (many, all, here, left) =
    let taken = take_task-begins p.scheduler s (wait_round-runs schedule p.scheduler s e) in
    (many, all, here, ground arith)
Calls-IsAttended (helped later earlier t e) uncalled i = i
Calls-IsAttended (terminates e) uncalled i = cc

-- The workers of a new pool.
start_workers-attending :
    (ids : List ℕ)
    → (total unstopped (start_workers ids) ≡ size (start_workers ids))
      × (attending (start_workers ids) ≡ size (start_workers ids))
      × (sleeping (start_workers ids) ≡ 0)
      × (holding (start_workers ids) ≡ 0)
      × (size (start_workers ids) ≡ length ids)
unfolding start_workers total size unstopped attends sleeps holds
start_workers-attending [] = (refl, refl, refl, refl, refl)
start_workers-attending (worker_id ∷ ids) =
    let (s1, s2, s3, s4, s5) = start_workers-attending ids in
    (omega arith, omega arith, omega arith, omega arith, omega arith)

length-worker_ids : (first n : ℕ) → length (worker_ids first n) ≡ n
unfolding worker_ids
length-worker_ids first zero = refl
length-worker_ids first (suc n) = ap suc (length-worker_ids (first + 1) n)

initialize_scheduler-IsAttended :
    (worker_count hw_concurrency : ℕ)
    → 0 < start_count worker_count hw_concurrency
    → IsAttended (initialize_scheduler worker_count hw_concurrency)
unfolding initialize_scheduler IsAttended queued
initialize_scheduler-IsAttended worker_count hw_concurrency some =
    let ids = worker_ids 0 (start_count worker_count hw_concurrency) in
    let (s1, s2, s3, s4, s5) = start_workers-attending ids in
    let many = length-worker_ids 0 (start_count worker_count hw_concurrency) in
    (omega arith, s1, omega arith, inl refl)

Works-uncalled : {p p' : Pool} → Works p p' → p'.closer ≡ not_called → p.closer ≡ not_called
unfolding move
Works-uncalled (tests_stop before after stop e) uncalled = uncalled
Works-uncalled (finds_nothing before after stop e free none) uncalled = uncalled
Works-uncalled (takes before after stop t others s e free some same) uncalled = uncalled
Works-uncalled (blocks before after stop e) uncalled = uncalled
Works-uncalled (returns before after stop t later earlier e running) uncalled = uncalled
Works-uncalled (requests e some) uncalled = uncalled
Works-uncalled (notifies_all e none) uncalled = cc
Works-uncalled (joins e none) uncalled = cc

Calls-uncalled : {p p' : Pool} → Calls p p' → p'.closer ≡ not_called → p.closer ≡ not_called
unfolding move
Calls-uncalled (counts_task priority t some) uncalled = uncalled
Calls-uncalled (puts_task before after priority t e free) uncalled = uncalled
Calls-uncalled (wakes n before after stop sent e) uncalled = uncalled
Calls-uncalled (wakes_nobody n sent none) uncalled = uncalled
Calls-uncalled (cancels_tag tag free) uncalled = uncalled
Calls-uncalled (helps schedule s some free e) uncalled = uncalled
Calls-uncalled (helped later earlier t e) uncalled = uncalled
Calls-uncalled (terminates e) uncalled = cc

PoolReachable-IsAttended : {p : Pool} → PoolReachable p → p.closer ≡ not_called → IsAttended p
PoolReachable-IsAttended (starts worker_count hw_concurrency small) uncalled =
    initialize_scheduler-IsAttended worker_count hw_concurrency
      (start_count_lem worker_count hw_concurrency small).0
PoolReachable-IsAttended (works_on r step) uncalled =
    Works-IsAttended step uncalled (PoolReachable-IsAttended r (Works-uncalled step uncalled))
PoolReachable-IsAttended (called r step) uncalled =
    Calls-IsAttended step uncalled (PoolReachable-IsAttended r (Calls-uncalled step uncalled))

-- Until `terminate_scheduler` is called, no task is forgotten in a queue, in any interleaving: when a task waits, a
-- notification is still to be sent or some worker is awake and will look at the queues.
pub queued-attended :
    {p : Pool}
    → PoolReachable p
    → p.closer ≡ not_called
    → 0 < queued p.scheduler
    → 0 < p.unsent + attending p.workers
unfolding IsAttended
queued-attended r uncalled waiting =
    let (many, all, here, left) = PoolReachable-IsAttended r uncalled in ground arith
