-- ===== src/AsyncOps.antt =====
-- Src/IACore/inc/IACore/AsyncOps.hpp and Src/IACore/imp/cpp/AsyncOps.cpp: the scheduler.
-- A state has the two queues, which the mutex guards, the counter of every schedule (an `i32`, kept
-- modulo 2 ^ 32), the tasks that a thread has counted and not yet put into a queue, and the tasks
-- that a thread runs. A step is what one thread does between two points at which others may come
-- in: one atomic operation on a counter, or one section under the mutex (`cancel_tasks_of_tag`
-- changes counters inside its section, one task after the other; a round of a waiter is one step).
-- A task is named by a number, since the scheduler only calls it. The laws are in AsyncOps/Counters
-- and AsyncOps/Cancel. AsyncOps/Pool has the places of the workers, their sleep and their end, and
-- AsyncOps/Waiter the sleep of a waiter.
pub mod Counters
pub mod Cancel
pub mod Pool
pub mod Waiter
mod Tests
use iacore.Base.{
  ℕ, zero, suc, ◌+◌, ◌-◌, ◌%◌, ◌^◌, ◌≡◌, Bool, true, false, ◌&&◌, not, List, [], ◌∷◌, ◌++◌, ltb,
  ◌==◌, if◌then◌else◌,
}

pub data Priority : Type 0 where
  high normal : Priority

pub record ScheduledTask : Type 0 where
  pub tag : ℕ
  pub schedule_handle : ℕ
  pub task : ℕ

abbrev pub i32_mod : ℕ
i32_mod = 2 ^ 32

-- The counter of every schedule.
abbrev pub Counters : Type 0
Counters = ℕ → ℕ

-- `counter.fetch_add(1)` and `counter.fetch_sub(1)`.
pub fetch_add : ℕ → Counters → Counters
fetch_add schedule c h = if h == schedule then (c h + 1) % i32_mod else c h

pub fetch_sub : ℕ → Counters → Counters
fetch_sub schedule c h = if h == schedule then (c h + i32_mod - 1) % i32_mod else c h

-- `counter.load() > 0`, which is a test of a signed number.
pub is_positive : ℕ → Bool
is_positive c = ltb 0 c && ltb c (2 ^ 31)

pub record Scheduler : Type 0 where
  pub high_priority_queue : List ScheduledTask
  pub normal_priority_queue : List ScheduledTask
  pub counters : Counters
  pub counted : List (Priority × ScheduledTask)
  pub running : List ScheduledTask

-- Before the first task.
abbrev pub idle : Scheduler
idle = record {
  high_priority_queue = [];
  normal_priority_queue = [];
  counters = λ h. 0;
  counted = [];
  running = [];
}

-- `schedule_task` up to the mutex, and its section under the mutex.
pub count_task : Priority → ScheduledTask → Scheduler → Scheduler
unfolding fetch_add
count_task priority t s = record s {
  counters = fetch_add t.schedule_handle s.counters;
  counted = (priority, t) ∷ s.counted;
}

pub put_task : Priority → ScheduledTask → Scheduler → Scheduler
put_task high t s = record s { high_priority_queue = s.high_priority_queue ++ t ∷ [] }
put_task normal t s = record s { normal_priority_queue = s.normal_priority_queue ++ t ∷ [] }

-- The loop of `cancel_tasks_of_tag` over one queue.
pub cancel_in : ℕ → List ScheduledTask → Counters → List ScheduledTask × Counters
unfolding fetch_sub
cancel_in tag [] c = ([], c)
cancel_in tag (t ∷ queue) c =
    let removed = cancel_in tag queue (fetch_sub t.schedule_handle c) in
    let kept = cancel_in tag queue c in if t.tag == tag then removed else (t ∷ kept.0, kept.1)

pub cancel_tasks_of_tag : ℕ → Scheduler → Scheduler
unfolding cancel_in
cancel_tasks_of_tag tag s =
    let in_high = cancel_in tag s.high_priority_queue s.counters in
    let in_normal = cancel_in tag s.normal_priority_queue in_high.1 in
    record s {
      high_priority_queue = in_high.0;
      normal_priority_queue = in_normal.0;
      counters = in_normal.1;
    }

-- What a thread finds in its section under the mutex: nothing, or a task that it begins to run.
pub data Found : Type 0 where
  nothing : Found
  begins : Scheduler → Found

pub take_from : List ScheduledTask → List ScheduledTask → Scheduler → Found
take_from (t ∷ queue) others s =
    begins (record s { high_priority_queue = queue; running = t ∷ s.running })
take_from [] (t ∷ queue) s =
    begins (record s { normal_priority_queue = queue; running = t ∷ s.running })
take_from [] [] s = nothing

pub take_task : Scheduler → Found
unfolding take_from
take_task s = take_from s.high_priority_queue s.normal_priority_queue s

-- One round of a thread's loop.
pub data Round : Type 0 where
  leaves sleeps : Round
  runs : Scheduler → Round

-- What the thread does with what it has found; `idles` if that is nothing.
pub round_with : Round → Found → Round
round_with idles nothing = idles
round_with idles (begins s) = runs s

-- `schedule_worker_loop`: at the head of the loop, and then under the mutex, where it sleeps until
-- a queue is not empty or it is stopped. The stop may be requested in between.
pub worker_round : (stopped_before stopped_under_mutex : Bool) → Scheduler → Round
unfolding take_task round_with
worker_round stopped_before stopped_under_mutex s =
    if stopped_before
    then leaves
    else round_with (if stopped_under_mutex then leaves else sleeps) (take_task s)

-- One round of `wait_for_schedule_completion` that no other thread comes in between: its test of the
-- counter, its section under the mutex, and what it does then.
pub wait_round : ℕ → Scheduler → Round
unfolding take_task is_positive round_with
wait_round schedule s =
    if is_positive (s.counters schedule) then round_with sleeps (take_task s) else leaves

-- A task has returned: its schedule's counter goes down.
pub finish_task : ScheduledTask → List ScheduledTask → Scheduler → Scheduler
unfolding fetch_sub
finish_task t others s = record s {
  counters = fetch_sub t.schedule_handle s.counters;
  running = others;
}

-- One step of some thread.
pub data Step : Scheduler → Scheduler → Type 0 where
  counts :
      {s : Scheduler} (priority : Priority) (t : ScheduledTask) → Step s (count_task priority t s)
  puts :
      {s : Scheduler} (before after : List (Priority × ScheduledTask)) (priority : Priority)
      (t : ScheduledTask)
      → s.counted ≡ before ++ (priority, t) ∷ after
      → Step s (put_task priority t (record s { counted = before ++ after }))
  cancels : {s : Scheduler} (tag : ℕ) → Step s (cancel_tasks_of_tag tag s)
  works :
      {s s' : Scheduler} (before under : Bool) → worker_round before under s ≡ runs s' → Step s s'
  waits : {s s' : Scheduler} (schedule : ℕ) → wait_round schedule s ≡ runs s' → Step s s'
  finishes :
      {s : Scheduler} (before after : List ScheduledTask) (t : ScheduledTask)
      → s.running ≡ before ++ t ∷ after
      → Step s (finish_task t (before ++ after) s)

-- What the threads can reach, in every interleaving.
pub data Reachable : Scheduler → Type 0 where
  start : Reachable idle
  next : {s s' : Scheduler} → Reachable s → Step s s' → Reachable s'

-- How many workers `initialize_scheduler` starts, and their identifiers.
pub start_count : (worker_count hw_concurrency : ℕ) → ℕ
start_count worker_count hw_concurrency =
    let threads = if ltb 2 hw_concurrency then hw_concurrency - 2 else 2 in
    if worker_count == 0 then (if ltb 255 threads then 255 else threads) % 256 else worker_count

pub worker_ids : ℕ → ℕ → List ℕ
worker_ids first zero = []
worker_ids first (suc n) = (first + 1) % 2 ^ 16 ∷ worker_ids (first + 1) n
