-- ===== src/AsyncOps/Pool/Stops.antt =====
-- AsyncOps.cpp: `terminate_scheduler` returns when no worker is about to sleep at its notification.
use iacore.Base.{
  ℕ, zero, suc, ◌+◌, ◌*◌, ◌≤◌, ◌<◌, ◌≡◌, refl, ap, Bool, ◌⊎◌, inl, inr, List, [], ◌∷◌, ◌++◌, arith,
}
use iacore.AsyncOps.{ScheduledTask, Scheduler, nothing, begins, take_from, take_task}
use iacore.AsyncOps.Pool.{
  Place, at_head, locking, deciding, asleep, busy, gone, Worker, size, total, holds, sleeps,
  present, unstopped, holding, sleeping, remaining, Pool, joining, returned, Works, tests_stop,
  finds_nothing, takes, joins, at_place, notify_all,
}
use iacore.AsyncOps.Pool.Counts.{
  total-middle, sleeping-notify_all, holding-notify_all, unstopped-notify_all,
}
use iacore.AsyncOps.Pool.Shutdown.{
  Run, stays, then, steps, steps_left, works, working, IsLeaving, Works-IsLeaving, Works-none,
}

present-cases : (place : Place) → (present place ≡ 1) ⊎ (present place ≡ 0)
unfolding present
present-cases at_head = inl refl
present-cases locking = inl refl
present-cases deciding = inl refl
present-cases asleep = inl refl
present-cases (busy t) = inl refl
present-cases gone = inr refl

zero-cases : (n : ℕ) → (n ≡ 0) ⊎ (0 < n)
zero-cases zero = inl refl
zero-cases (suc n) = inr (omega arith)

-- A worker that has not left.
remaining-found :
    (workers : List Worker)
    → 0 < remaining workers
    → (before : List Worker) × (w : Worker) × (after : List Worker) × (workers
        ≡ before ++ w ∷ after)
      × (present w.place ≡ 1)
unfolding total
remaining-found [] some = absurd (omega (arith, some))
remaining-found (w ∷ workers) some = elim (present-cases w.place) [
  | inl here ↦ ([], w, workers, refl, here)
  | inr left ↦
      let (before, v, after, e, here) = remaining-found workers (omega (arith, some, left)) in
      (w ∷ before, v, after, ap (λ ws. w ∷ ws) e, here)
]

-- A section under the mutex finds nothing, or a task, which it begins to run.
take_from-cases :
    (first second : List ScheduledTask) (s : Scheduler)
    → (take_from first second s ≡ nothing)
      ⊎ ((s' : Scheduler) × (t : ScheduledTask) × (others : List ScheduledTask) × (take_from first
              second s
            ≡ begins s')
          × (s'.running ≡ t ∷ others))
unfolding take_from
take_from-cases (t ∷ first) second s = inr (_, t, s.running, refl, refl)
take_from-cases [] (t ∷ second) s = inr (_, t, s.running, refl, refl)
take_from-cases [] [] s = inl refl

-- The step of a worker that has not left, unless it is in its task.
worker-progress :
    (p : Pool) (before after : List Worker) (place : Place) (stop : Bool)
    → p.workers ≡ before ++ at_place place stop ∷ after
    → present place ≡ 1
    → sleeping p.workers ≡ 0
    → holding p.workers ≡ 0
    → ((p' : Pool) × Works p p') ⊎ (0 < working p.workers)
unfolding present sleeps holds works take_task at_place
worker-progress p before after at_head stop e here none free =
    inl (_, tests_stop before after stop e)
worker-progress p before after locking stop e here none free =
    elim (take_from-cases p.scheduler.high_priority_queue p.scheduler.normal_priority_queue
      p.scheduler) [
        | inl empty ↦ inl (_, finds_nothing before after stop e free empty)
        | inr (s, t, others, found, running) ↦
            inl (_, takes before after stop t others s e free found running)
      ]
worker-progress p before after deciding stop e here none free = absurd (
    omega (
      arith,
      ap holding e,
      total-middle (λ w. holds w.place) before after (at_place deciding stop),
    ))
worker-progress p before after asleep stop e here none free = absurd (
    omega (
      arith,
      ap sleeping e,
      total-middle (λ w. sleeps w.place) before after (at_place asleep stop),
    ))
worker-progress p before after (busy t) stop e here none free = inr (
    omega (
      arith,
      ap working e,
      total-middle (λ w. works w.place) before after (at_place (busy t) stop),
    ))
worker-progress p before after gone stop e here none free = absurd (omega (arith, here))

leaving-progress : (p : Pool) → IsLeaving p → ((p' : Pool) × Works p p') ⊎ (0 < working p.workers)
unfolding IsLeaving at_place
leaving-progress p (closer, asked, none, free) = elim (zero-cases (remaining p.workers)) [
  | inl empty ↦ inl (_, joins closer empty)
  | inr some ↦
      let (before, w, after, e, here) = remaining-found p.workers some in
      worker-progress p before after w.place w.stop_requested e here none free
]

-- After any number of steps the pool is still leaving, with as many steps fewer left, or the end was reached.
pub Run-IsLeaving :
    {n : ℕ} {p p' : Pool}
    → Run n p p'
    → IsLeaving p
    → (IsLeaving p' × (n + steps_left p'.workers ≤ steps_left p.workers))
      ⊎ ((p'.closer ≡ returned) × (p'.workers ≡ []) × (n ≤ steps_left p.workers + 1))
unfolding size
Run-IsLeaving stays i = inl (i, omega arith)
Run-IsLeaving (then run step) i = elim (Run-IsLeaving run i) [
  | inl (i', fewer) ↦ elim (Works-IsLeaving step i') [
    | inl (i'', nearer) ↦ inl (i'', omega arith)
    | inr (over, none) ↦ inr (over, none, omega arith)
  ]
  | inr (over, none, few) ↦ absurd (omega (arith, Works-none step over (ap size none)))
]

steps-bound : (place : Place) → steps place ≤ 3
unfolding steps
steps-bound at_head = omega arith
steps-bound locking = omega arith
steps-bound deciding = omega arith
steps-bound asleep = omega arith
steps-bound (busy t) = omega arith
steps-bound gone = omega arith

steps_left-size : (workers : List Worker) → steps_left workers ≤ 3 * size workers
unfolding total size
steps_left-size [] = omega arith
steps_left-size (w ∷ workers) = omega (arith, steps-bound w.place, steps_left-size workers)

pub size-notify_all : (workers : List Worker) → size (notify_all workers) ≡ size workers
unfolding notify_all size
size-notify_all [] = refl
size-notify_all (w ∷ workers) = ap (λ n. 1 + n) (size-notify_all workers)

pub notified-returns :
    (p : Pool)
    → total unstopped p.workers ≡ 0
    → holding p.workers ≡ 0
    → {n : ℕ} {p' : Pool} → Run n (record p { workers = notify_all p.workers; closer = joining }) p'
    → (n ≤ 3 * size p.workers + 1)
      × (((p'.closer ≡ returned) × (p'.workers ≡ []))
          ⊎ (((p'' : Pool) × Works p' p'') ⊎ (0 < working p'.workers)))
unfolding IsLeaving
notified-returns p asked free run =
    let ws = p.workers in
    let bound = steps_left-size (notify_all ws) in
    let same = size-notify_all ws in
    let leaving : IsLeaving (record p { workers = notify_all ws; closer = joining }) = (
      refl,
      omega (arith, asked, unstopped-notify_all ws),
      sleeping-notify_all ws,
      omega (arith, free, holding-notify_all ws),
    ) in
    elim (Run-IsLeaving run leaving) [
      | inl (i, fewer) ↦ (omega arith, inr (leaving-progress _ i))
      | inr (over, none, few) ↦ (omega arith, inl (over, none))
    ]
