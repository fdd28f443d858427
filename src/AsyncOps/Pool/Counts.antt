-- ===== src/AsyncOps/Pool/Counts.antt =====
-- AsyncOps.cpp: sums over the workers of a pool, and what the operations do to them.
use iacore.Base.{
  ◌==◌, ℕ, ◌+◌, ◌≤◌, ◌<◌, ◌≡◌, refl, sym, ap, inl, inr, List, [], ◌∷◌, ◌++◌, length, Bool-cases,
  arith,
}
use iacore.AsyncOps.{
  Counters, fetch_sub, cancel_in, cancel_tasks_of_tag, ScheduledTask, Scheduler, nothing, begins,
  take_from, take_task,
}
use iacore.AsyncOps.Counters.{begins-injective, take_from-nothing}
use iacore.AsyncOps.Pool.{
  Place, at_head, locking, deciding, asleep, busy, gone, Worker, size, total, holds, sleeps,
  unstopped, holding, sleeping, request_stop, request_next, wake, notify_all,
}

pub total-middle :
    (f : Worker → ℕ) (before after : List Worker) (w : Worker)
    → total f (before ++ w ∷ after) ≡ f w + total f (before ++ after)
unfolding total
total-middle f [] after w = refl
total-middle f (x ∷ before) after w = omega (arith, total-middle f before after w)

pub size-middle :
    (before after : List Worker) (w : Worker)
    → size (before ++ w ∷ after) ≡ 1 + size (before ++ after)
unfolding size
size-middle [] after w = refl
size-middle (x ∷ before) after w = omega (arith, size-middle before after w)

-- A worker that moves changes a sum by its own number.
pub total-move :
    (f : Worker → ℕ) (workers before after : List Worker) (w w' : Worker)
    → workers ≡ before ++ w ∷ after
    → total f (before ++ w' ∷ after) + f w ≡ total f workers + f w'
total-move f workers before after w w' e =
    omega (arith, ap (total f) e, total-middle f before after w, total-middle f before after w')

pub size-move :
    (workers before after : List Worker) (w w' : Worker)
    → workers ≡ before ++ w ∷ after
    → size (before ++ w' ∷ after) ≡ size workers
size-move workers before after w w' e =
    omega (arith, ap size e, size-middle before after w, size-middle before after w')

pub total-notify_all :
    (f g : Worker → ℕ)
    → ((w : Worker) → f (record w { place = wake w.place }) ≤ g w)
    → (workers : List Worker) → total f (notify_all workers) ≤ total g workers
unfolding notify_all total
total-notify_all f g below [] = omega arith
total-notify_all f g below (w ∷ workers) =
    omega (arith, below w, total-notify_all f g below workers)

pub sleeps-wake : (place : Place) → sleeps (wake place) ≡ 0
unfolding sleeps wake
sleeps-wake at_head = refl
sleeps-wake locking = refl
sleeps-wake deciding = refl
sleeps-wake asleep = refl
sleeps-wake (busy t) = refl
sleeps-wake gone = refl

pub holds-wake : (place : Place) → holds (wake place) ≡ holds place
unfolding holds wake
holds-wake at_head = refl
holds-wake locking = refl
holds-wake deciding = refl
holds-wake asleep = refl
holds-wake (busy t) = refl
holds-wake gone = refl

pub total-zero : (workers : List Worker) → total (λ w. 0) workers ≡ 0
unfolding total
total-zero [] = refl
total-zero (w ∷ workers) = omega (arith, total-zero workers)

pub sleeping-notify_all : (workers : List Worker) → sleeping (notify_all workers) ≡ 0
sleeping-notify_all workers = omega (
  arith,
  total-notify_all (λ w. sleeps w.place) (λ w. 0) (λ w. omega (arith, sleeps-wake w.place)) workers,
  total-zero workers,
)

pub holding-notify_all : (workers : List Worker) → holding (notify_all workers) ≤ holding workers
holding-notify_all workers =
    total-notify_all (λ w. holds w.place) (λ w. holds w.place)
      (λ w. omega (arith, holds-wake w.place)) workers

pub unstopped-notify_all :
    (workers : List Worker) → total unstopped (notify_all workers) ≤ total unstopped workers
unfolding unstopped
unstopped-notify_all workers = total-notify_all unstopped unstopped (λ w. omega arith) workers

-- Asking the next worker changes nobody's place.
pub places-request_next :
    (f : Place → ℕ) (workers : List Worker)
    → total (λ w. f w.place) (request_next workers) ≡ total (λ w. f w.place) workers
unfolding request_next request_stop total
places-request_next f [] = refl
places-request_next f (w ∷ workers) = elim (Bool-cases w.stop_requested) [
  | inl stopped ↦ simp stopped (ap (λ n. f w.place + n) (places-request_next f workers))
  | inr running ↦ simp running refl
]

-- It asks one that has not been asked.
pub unstopped-request_next :
    (workers : List Worker)
    → 0 < total unstopped workers
    → total unstopped workers ≡ 1 + total unstopped (request_next workers)
unfolding request_next request_stop total unstopped
unstopped-request_next [] e = absurd (omega (arith, e))
unstopped-request_next (w ∷ workers) e = elim (Bool-cases w.stop_requested) [
  | inl stopped ↦ simp stopped (ground (arith, stopped, e, unstopped-request_next workers))
  | inr running ↦ simp running (ground arith)
]

-- How many tasks wait in the queues.
unfoldable pub queued : Scheduler → ℕ
queued s = length s.high_priority_queue + length s.normal_priority_queue

pub take_from-begins :
    (first second : List ScheduledTask) (s s' : Scheduler)
    → s.high_priority_queue ≡ first
    → s.normal_priority_queue ≡ second
    → take_from first second s ≡ begins s'
    → queued s ≡ 1 + queued s'
unfolding take_from queued
take_from-begins (t ∷ first) second s s' hf hs e =
    let same = sym (begins-injective _ s' e) in
    omega (
      arith,
      ap length hf,
      ap (λ z. length z.high_priority_queue) same,
      ap (λ z. length z.normal_priority_queue) same,
    )
take_from-begins [] (t ∷ second) s s' hf hs e =
    let same = sym (begins-injective _ s' e) in
    omega (
      arith,
      ap length hs,
      ap (λ z. length z.high_priority_queue) same,
      ap (λ z. length z.normal_priority_queue) same,
    )
take_from-begins [] [] s s' hf hs e = cc

pub take_task-begins : (s s' : Scheduler) → take_task s ≡ begins s' → queued s ≡ 1 + queued s'
unfolding take_task
take_task-begins s s' e =
    take_from-begins s.high_priority_queue s.normal_priority_queue s s' refl refl e

pub take_task-nothing : (s : Scheduler) → take_task s ≡ nothing → queued s ≡ 0
unfolding take_task queued
take_task-nothing s e =
    let (none_high, none_normal) =
      take_from-nothing s.high_priority_queue s.normal_priority_queue s e in
    omega (arith, ap length none_high, ap length none_normal)

length-cancel_in :
    (tag : ℕ) (queue : List ScheduledTask) (c : Counters)
    → length (cancel_in tag queue c).0 ≤ length queue
unfolding cancel_in
length-cancel_in tag [] c = omega arith
length-cancel_in tag (t ∷ queue) c = elim (Bool-cases (t.tag == tag)) [
  | inl same ↦ simp same (omega (arith, length-cancel_in tag queue (fetch_sub t.schedule_handle c)))
  | inr other ↦ simp other (omega (arith, length-cancel_in tag queue c))
]

pub queued-cancel : (tag : ℕ) (s : Scheduler) → queued (cancel_tasks_of_tag tag s) ≤ queued s
unfolding cancel_tasks_of_tag queued
queued-cancel tag s = omega (
  arith,
  length-cancel_in tag s.high_priority_queue s.counters,
  length-cancel_in tag s.normal_priority_queue (cancel_in tag s.high_priority_queue s.counters).1,
)
