-- ===== src/AsyncOps/Pool/Lost.antt =====
-- AsyncOps.cpp: a worker that misses the notification of `terminate_scheduler`.
use iacore.Base.{ℕ, zero, suc, ◌+◌, ◌≤◌, ◌<◌, ◌≡◌, refl, ◌∙◌, true, false, List, [], ◌∷◌, arith}
use iacore.AsyncOps.Pool.{
  Place, at_head, locking, deciding, asleep, busy, gone, Worker, total, holds, sleeps, present,
  unstopped, holding, sleeping, remaining, Pool, stopping, joining, Works, tests_stop,
  finds_nothing, takes, blocks, returns, requests, notifies_all, joins, test_stop, found_nothing,
  move, notify_all, request_next, PoolReachable, works_on,
}
use iacore.AsyncOps.Pool.Counts.{holds-wake, places-request_next, unstopped-request_next}
use iacore.AsyncOps.Pool.Shutdown.{Run, stays, then, leaving_move}

-- The first loop of `terminate_scheduler` with so many workers left to ask, and its notification.
pub request_all : ℕ → List Worker → List Worker
request_all zero workers = workers
request_all (suc n) workers = request_all n (request_next workers)

pub notified : Pool → Pool
unfolding request_all
notified p = record p {
  workers = notify_all (request_all (total unstopped p.workers) p.workers);
  closer = joining;
}

asleep-present : (place : Place) → sleeps place + holds place ≤ present place
unfolding sleeps holds present
asleep-present at_head = omega arith
asleep-present locking = omega arith
asleep-present deciding = omega arith
asleep-present asleep = omega arith
asleep-present (busy t) = omega arith
asleep-present gone = omega arith

sleeping-remaining :
    (workers : List Worker) → sleeping workers + holding workers ≤ remaining workers
unfolding total
sleeping-remaining [] = omega arith
sleeping-remaining (w ∷ workers) = omega (arith, asleep-present w.place, sleeping-remaining workers)

holding-notified : (workers : List Worker) → holding (notify_all workers) ≡ holding workers
unfolding total notify_all
holding-notified [] = refl
holding-notified (w ∷ workers) = omega (arith, holds-wake w.place, holding-notified workers)

holding-request_all :
    (n : ℕ) (workers : List Worker) → holding (request_all n workers) ≡ holding workers
unfolding request_all
holding-request_all zero workers = refl
holding-request_all (suc n) workers =
    holding-request_all n (request_next workers) ∙ places-request_next holds workers

-- A worker that sleeps or is about to sleep does so for ever.
Works-unwoken :
    {p p' : Pool}
    → Works p p'
    → p.closer ≡ joining
    → 0 < sleeping p.workers + holding p.workers
    → (p'.closer ≡ joining) × (0 < sleeping p'.workers + holding p'.workers)
unfolding move sleeps holds test_stop found_nothing
Works-unwoken {p} (tests_stop before after false e) closer some =
    let (s1, s2, s3, s4, s5) = leaving_move p.workers before after at_head locking false e in
    (closer, omega arith)
Works-unwoken {p} (tests_stop before after true e) closer some =
    let (s1, s2, s3, s4, s5) = leaving_move p.workers before after at_head gone true e in
    (closer, omega arith)
Works-unwoken {p} (finds_nothing before after false e idle found) closer some =
    let (s1, s2, s3, s4, s5) = leaving_move p.workers before after locking deciding false e in
    (closer, omega arith)
Works-unwoken {p} (finds_nothing before after true e idle found) closer some =
    let (s1, s2, s3, s4, s5) = leaving_move p.workers before after locking gone true e in
    (closer, omega arith)
Works-unwoken {p} (takes before after stop t others s e idle found same) closer some =
    let (s1, s2, s3, s4, s5) = leaving_move p.workers before after locking (busy t) stop e in
    (closer, omega arith)
Works-unwoken {p} (blocks before after stop e) closer some =
    let (s1, s2, s3, s4, s5) = leaving_move p.workers before after deciding asleep stop e in
    (closer, omega arith)
Works-unwoken {p} (returns before after stop t later earlier e running) closer some =
    let (s1, s2, s3, s4, s5) = leaving_move p.workers before after (busy t) at_head stop e in
    (closer, omega arith)
Works-unwoken (requests e asked) closer some = cc
Works-unwoken (notifies_all e asked) closer some = cc
Works-unwoken {p} (joins e left) closer some = absurd (omega (arith, sleeping-remaining p.workers))

Run-unwoken :
    {n : ℕ} {p p' : Pool}
    → Run n p p'
    → p.closer ≡ joining
    → 0 < sleeping p.workers + holding p.workers
    → (p'.closer ≡ joining) × (0 < sleeping p'.workers + holding p'.workers)
Run-unwoken stays closer some = (closer, some)
Run-unwoken (then run step) closer some =
    let (closer', some') = Run-unwoken run closer some in Works-unwoken step closer' some'

-- The loop runs to its end.
requested-Reachable :
    (n : ℕ) (p : Pool)
    → PoolReachable p
    → p.closer ≡ stopping
    → total unstopped p.workers ≡ n
    → PoolReachable (record p { workers = notify_all (request_all n p.workers); closer = joining })
unfolding request_all
requested-Reachable zero p r closer asked = works_on r (notifies_all closer asked)
requested-Reachable (suc n) p r closer asked =
    requested-Reachable n (record p { workers = request_next p.workers })
      (works_on r (requests closer (omega arith))) closer
      (omega (arith, unstopped-request_next p.workers (omega arith)))

-- If some worker has found its predicate false and does not sleep yet while `terminate_scheduler` asks the workers to
-- stop, its notification, which takes no mutex, can come before that sleep. From there, when nobody schedules and no
-- sleeper wakes by chance, every run of the workers leaves `terminate_scheduler` in its joins: it never returns.
pub notified-unwoken :
    (p : Pool)
    → PoolReachable p
    → p.closer ≡ stopping
    → 0 < holding p.workers
    → {n : ℕ} {p' : Pool} → Run n (notified p) p'
    → PoolReachable (notified p) × (p'.closer ≡ joining)
unfolding notified
notified-unwoken p r closer some run =
    let asked = request_all (total unstopped p.workers) p.workers in
    (
      requested-Reachable (total unstopped p.workers) p r closer refl,
      (Run-unwoken run refl (
          omega (
            arith,
            holding-notified asked,
            holding-request_all (total unstopped p.workers) p.workers,
          ))).0,
    )
