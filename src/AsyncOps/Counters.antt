-- ===== src/AsyncOps/Counters.antt =====
-- AsyncOps.cpp: a schedule's counter counts its tasks, in every interleaving.
use iacore.Base.{
  ℕ, ◌+◌, ◌%◌, ◌^◌, ◌<◌, ◌≡◌, refl, sym, ap, ◌∙◌, Bool, true, false, ◌⊎◌, inl, inr, List, [], ◌∷◌,
  ◌++◌, ◌==◌, if◌then◌else◌, Bool-cases, arith,
}
use iacore.AsyncOps.{
  Priority, high, normal, ScheduledTask, i32_mod, Counters, fetch_add, fetch_sub, is_positive,
  Scheduler, count_task, put_task, cancel_in, cancel_tasks_of_tag, Found, nothing, begins,
  take_from, take_task, round_with, Round, leaves, sleeps, runs, worker_round, wait_round,
  finish_task, Step, counts, puts, cancels, works, waits, finishes, Reachable, start, next,
}

-- How many of the tasks belong to a schedule.
unfoldable pub tasks_of : ℕ → List ScheduledTask → ℕ
tasks_of h [] = 0
tasks_of h (t ∷ tasks) = (if h == t.schedule_handle then 1 else 0) + tasks_of h tasks

tasks_of-append :
    (h : ℕ) (xs ys : List ScheduledTask) → tasks_of h (xs ++ ys) ≡ tasks_of h xs + tasks_of h ys
unfolding tasks_of
tasks_of-append h [] ys = omega arith
tasks_of-append h (x ∷ xs) ys = omega (arith, tasks_of-append h xs ys)

tasks_of-middle :
    (h : ℕ) (xs ys : List ScheduledTask) (t : ScheduledTask)
    → tasks_of h (xs ++ t ∷ ys) ≡ (if h == t.schedule_handle then 1 else 0) + tasks_of h (xs ++ ys)
unfolding tasks_of
tasks_of-middle h xs ys t = omega (arith, tasks_of-append h xs (t ∷ ys), tasks_of-append h xs ys)

-- The tasks that a thread has counted.
unfoldable pub counted_of : ℕ → List (Priority × ScheduledTask) → ℕ
counted_of h [] = 0
counted_of h (p ∷ counted) = (if h == p.1.schedule_handle then 1 else 0) + counted_of h counted

counted_of-middle :
    (h : ℕ) (xs ys : List (Priority × ScheduledTask)) (p : Priority × ScheduledTask)
    → counted_of h (xs ++ p ∷ ys)
      ≡ (if h == p.1.schedule_handle then 1 else 0) + counted_of h (xs ++ ys)
unfolding counted_of
counted_of-middle h [] ys p = refl
counted_of-middle h (x ∷ xs) ys p = omega (arith, counted_of-middle h xs ys p)

-- The tasks of a schedule that are neither done nor cancelled.
unfoldable pub pending : ℕ → Scheduler → ℕ
pending h s =
    tasks_of h s.high_priority_queue
    + tasks_of h s.normal_priority_queue
    + counted_of h s.counted
    + tasks_of h s.running

-- The counter is right.
pub IsCounted : ℕ → Scheduler → Type 0
IsCounted h s = s.counters h ≡ pending h s % i32_mod

-- The loop lowers the counter by the tasks that it removes.
cancel_in-counted :
    (h tag : ℕ) (queue : List ScheduledTask) (c : Counters) (others : ℕ)
    → c h ≡ (tasks_of h queue + others) % i32_mod
    → (cancel_in tag queue c).1 h ≡ (tasks_of h (cancel_in tag queue c).0 + others) % i32_mod
unfolding cancel_in tasks_of fetch_sub
cancel_in-counted h tag [] c others e = e
cancel_in-counted h tag (t ∷ queue) c others e = elim (Bool-cases (t.tag == tag)) [
  | inl same ↦
      rw same (cancel_in-counted h tag queue (fetch_sub t.schedule_handle c) others (ground arith))
  | inr other ↦ rw other (
      cancel_in-counted h tag queue c ((if h == t.schedule_handle then 1 else 0) + others)
        (omega arith)
      ∙ ap (λ n. n % i32_mod) (omega arith))
]

pub begins-injective : (a b : Scheduler) → begins a ≡ begins b → a ≡ b
begins-injective a b e = cc

-- A task that a thread begins to run stays counted.
pub take_from-counted :
    (h : ℕ) (first second : List ScheduledTask) (s s' : Scheduler)
    → s.high_priority_queue ≡ first
    → s.normal_priority_queue ≡ second
    → take_from first second s ≡ begins s'
    → (s'.counters h ≡ s.counters h) × (pending h s' ≡ pending h s)
unfolding take_from pending tasks_of
take_from-counted h (t ∷ first) second s s' hf hs e =
    let same = sym (begins-injective _ s' e) in
    (ap (λ z. z.counters h) same, ap (pending h) same ∙ omega (arith, ap (tasks_of h) hf))
take_from-counted h [] (t ∷ second) s s' hf hs e =
    let same = sym (begins-injective _ s' e) in
    (ap (λ z. z.counters h) same, ap (pending h) same ∙ omega (arith, ap (tasks_of h) hs))
take_from-counted h [] [] s s' hf hs e = cc

take_task-IsCounted :
    (h : ℕ) (s s' : Scheduler) → take_task s ≡ begins s' → IsCounted h s → IsCounted h s'
unfolding take_task IsCounted
take_task-IsCounted h s s' e i =
    let (same, total) =
      take_from-counted h s.high_priority_queue s.normal_priority_queue s s' refl refl e in
    same ∙ i ∙ ap (λ n. n % i32_mod) (sym total)

round_with-runs :
    (idles : Round) (found : Found) (s' : Scheduler)
    → round_with idles found ≡ runs s'
    → (idles ≡ runs s') ⊎ (found ≡ begins s')
unfolding round_with
round_with-runs idles nothing s' e = inl e
round_with-runs idles (begins s) s' e = inr cc

worker_round-runs :
    (before under : Bool) (s s' : Scheduler)
    → worker_round before under s ≡ runs s'
    → take_task s ≡ begins s'
unfolding worker_round
worker_round-runs true under s s' e = cc
worker_round-runs false true s s' e = elim (round_with-runs leaves (take_task s) s' e) [
  | inl l ↦ cc
  | inr b ↦ b
]
worker_round-runs false false s s' e = elim (round_with-runs sleeps (take_task s) s' e) [
  | inl l ↦ cc
  | inr b ↦ b
]

unless_leaves :
    (positive : Bool) (round : Round) (s' : Scheduler)
    → (if positive then round else leaves) ≡ runs s'
    → round ≡ runs s'
unless_leaves true round s' e = e
unless_leaves false round s' e = cc

pub wait_round-runs :
    (schedule : ℕ) (s s' : Scheduler) → wait_round schedule s ≡ runs s' → take_task s ≡ begins s'
unfolding wait_round
wait_round-runs schedule s s' e =
    elim (round_with-runs sleeps (take_task s) s'
      (unless_leaves (is_positive (s.counters schedule)) (round_with sleeps (take_task s)) s' e)) [
        | inl l ↦ cc
        | inr b ↦ b
      ]

cancel-IsCounted :
    (h tag : ℕ) (s : Scheduler) → IsCounted h s → IsCounted h (cancel_tasks_of_tag tag s)
unfolding cancel_tasks_of_tag IsCounted pending
cancel-IsCounted h tag s i =
    let high_queue = s.high_priority_queue in
    let normal_queue = s.normal_priority_queue in
    let rest = counted_of h s.counted + tasks_of h s.running in
    let in_high = cancel_in tag high_queue s.counters in
    let in_normal = cancel_in tag normal_queue in_high.1 in
    let first : in_high.1 h ≡ (tasks_of h in_high.0 + (tasks_of h normal_queue + rest)) % i32_mod =
      cancel_in-counted h tag high_queue s.counters (tasks_of h normal_queue + rest)
        (omega (arith, i)) in
    let second : in_normal.1 h
        ≡ (tasks_of h in_normal.0 + (tasks_of h in_high.0 + rest)) % i32_mod =
      cancel_in-counted h tag normal_queue in_high.1 (tasks_of h in_high.0 + rest)
        (omega (arith, first)) in
    omega (arith, second)

Step-IsCounted : (h : ℕ) {s s' : Scheduler} → Step s s' → IsCounted h s → IsCounted h s'
unfolding IsCounted pending tasks_of counted_of count_task put_task fetch_add fetch_sub finish_task
Step-IsCounted h (counts priority t) i = ground arith
Step-IsCounted h {s} (puts before after high t e) i = omega (
  arith,
  ap (counted_of h) e,
  counted_of-middle h before after (high, t),
  tasks_of-append h s.high_priority_queue (t ∷ []),
)
Step-IsCounted h {s} (puts before after normal t e) i = omega (
  arith,
  ap (counted_of h) e,
  counted_of-middle h before after (normal, t),
  tasks_of-append h s.normal_priority_queue (t ∷ []),
)
Step-IsCounted h {s} (cancels tag) i = cancel-IsCounted h tag s i
Step-IsCounted h {s} {s'} (works before under e) i =
    take_task-IsCounted h s s' (worker_round-runs before under s s' e) i
Step-IsCounted h {s} {s'} (waits schedule e) i =
    take_task-IsCounted h s s' (wait_round-runs schedule s s' e) i
Step-IsCounted h (finishes before after t e) i =
    ground (arith, ap (tasks_of h) e, tasks_of-middle h before after t)

-- In every interleaving of the threads a schedule's counter is the number of its tasks that are counted, queued or
-- run, modulo 2 ^ 32.
pub Reachable-IsCounted : (h : ℕ) {s : Scheduler} → Reachable s → IsCounted h s
unfolding IsCounted pending tasks_of counted_of
Reachable-IsCounted h start = refl
Reachable-IsCounted h (next r step) = Step-IsCounted h step (Reachable-IsCounted h r)

leaves-not_positive :
    (positive : Bool) (found : Found)
    → (if positive then round_with sleeps found else leaves) ≡ leaves
    → positive ≡ false
unfolding round_with
leaves-not_positive true nothing e = cc
leaves-not_positive true (begins s) e = cc
leaves-not_positive false found e = refl

pub take_from-nothing :
    (first second : List ScheduledTask) (s : Scheduler)
    → take_from first second s ≡ nothing
    → (first ≡ []) × (second ≡ [])
unfolding take_from
take_from-nothing (t ∷ first) second s e = cc
take_from-nothing [] (t ∷ second) s e = cc
take_from-nothing [] [] s e = (refl, refl)

-- When `wait_for_schedule_completion` ends, and its schedule has fewer than 2 ^ 31 tasks then, none of these is queued,
-- being scheduled or run: each was run to its end or cancelled.
pub wait_round_complete :
    (h : ℕ) (s : Scheduler)
    → Reachable s
    → pending h s < 2 ^ 31
    → wait_round h s ≡ leaves
    → pending h s ≡ 0
unfolding wait_round is_positive IsCounted
wait_round_complete h s r small e =
    let over = leaves-not_positive (is_positive (s.counters h)) (take_task s) e in
    let counter : s.counters h ≡ pending h s % i32_mod = Reachable-IsCounted h r in
    ground (arith, over, counter)
