-- ===== src/AsyncOps/Pool.antt =====
-- Src/IACore/imp/cpp/AsyncOps.cpp: the workers as threads that sleep on the condition variable, and
-- `terminate_scheduler`, which stops and joins them. A worker has a place in its loop. It holds the
-- mutex between the test of its predicate, when that is false, and the moment at which it blocks;
-- every other section under the mutex is one step, which needs the mutex to be free. A request to
-- stop and a notification need no mutex. `notify_one` wakes some sleeper, or nobody if nobody sleeps.
-- Spurious wake-ups, which the standard allows and promises nobody, are left out. The laws are in
-- the children.
pub mod Counts
pub mod Wake
pub mod Shutdown
pub mod Stops
pub mod Dropped
pub mod Lost
mod Tests
use iacore.Base.{
  ℕ, zero, suc, ◌+◌, ◌%◌, ◌^◌, ◌≤◌, ◌<◌, ◌≡◌, Bool, true, false, List, [], ◌∷◌, ◌++◌, if◌then◌else◌,
}
use iacore.AsyncOps.{
  Priority, ScheduledTask, Scheduler, idle, count_task, put_task, cancel_tasks_of_tag, Found,
  nothing, begins, take_task, wait_round, runs, finish_task, start_count, worker_ids,
}

-- Where a worker is: at the head of the loop, past its test, under the mutex with a predicate that
-- was false, asleep, in a task, or gone.
pub data Place : Type 0 where
  at_head locking deciding asleep : Place
  busy : ScheduledTask → Place
  gone : Place

pub record Worker : Type 0 where
  pub place : Place
  pub stop_requested : Bool

-- `terminate_scheduler`: not called, before its notification, joining, returned.
pub data Closer : Type 0 where
  not_called stopping joining returned : Closer

pub record Pool : Type 0 where
  pub scheduler : Scheduler
  pub workers : List Worker
  pub unsent : ℕ
  pub closer : Closer

-- `initialize_scheduler`: a thread for each identifier.
pub start_workers : List ℕ → List Worker
start_workers [] = []
start_workers (worker_id ∷ ids) =
    record { place = at_head; stop_requested = false } ∷ start_workers ids

pub initialize_scheduler : (worker_count hw_concurrency : ℕ) → Pool
unfolding start_workers start_count worker_ids
initialize_scheduler worker_count hw_concurrency = record {
  scheduler = idle;
  workers = start_workers (worker_ids 0 (start_count worker_count hw_concurrency));
  unsent = 0;
  closer = not_called;
}

-- `get_worker_count`.
unfoldable pub size : List Worker → ℕ
size [] = 0
size (w ∷ ws) = 1 + size ws

pub get_worker_count : Pool → ℕ
unfolding size
get_worker_count p = size p.workers % 2 ^ 16

-- The sum of a number over the workers.
unfoldable pub total : (Worker → ℕ) → List Worker → ℕ
total f [] = 0
total f (w ∷ ws) = f w + total f ws

-- Whether a worker holds the mutex, sleeps, has not left, has not been asked to stop: 1 or 0.
unfoldable pub holds : Place → ℕ
holds at_head = 0
holds locking = 0
holds deciding = 1
holds asleep = 0
holds (busy t) = 0
holds gone = 0

unfoldable pub sleeps : Place → ℕ
sleeps at_head = 0
sleeps locking = 0
sleeps deciding = 0
sleeps asleep = 1
sleeps (busy t) = 0
sleeps gone = 0

unfoldable pub present : Place → ℕ
present at_head = 1
present locking = 1
present deciding = 1
present asleep = 1
present (busy t) = 1
present gone = 0

unfoldable pub unstopped : Worker → ℕ
unstopped w = if w.stop_requested then 0 else 1

-- How many workers are so.
abbrev pub holding : List Worker → ℕ
holding = total (λ w. holds w.place)

abbrev pub sleeping : List Worker → ℕ
sleeping = total (λ w. sleeps w.place)

abbrev pub remaining : List Worker → ℕ
remaining = total (λ w. present w.place)

-- The head of the loop.
pub test_stop : Bool → Place
test_stop true = gone
test_stop false = locking

-- Under the mutex: where the worker goes when it finds nothing, and when it takes a task.
pub found_nothing : Bool → Place
found_nothing true = gone
found_nothing false = deciding

pub request_stop : Worker → Worker
request_stop w = record w { stop_requested = true }

-- The loop of `terminate_scheduler` asks the workers in their order: the next one.
pub request_next : List Worker → List Worker
unfolding request_stop
request_next [] = []
request_next (w ∷ ws) =
    let rest = request_next ws in if w.stop_requested then w ∷ rest else request_stop w ∷ ws

-- `notify_all`.
pub wake : Place → Place
wake at_head = at_head
wake locking = locking
wake deciding = deciding
wake asleep = locking
wake (busy t) = busy t
wake gone = gone

pub notify_all : List Worker → List Worker
unfolding wake
notify_all [] = []
notify_all (w ∷ ws) = record w { place = wake w.place } ∷ notify_all ws

pub at_place : Place → Bool → Worker
at_place place stop = record { place = place; stop_requested = stop }

-- A worker of the pool moves.
pub move : Pool → List Worker → Worker → List Worker → Pool
move p before w after = record p { workers = before ++ w ∷ after }

-- One step of a worker or of `terminate_scheduler`.
pub data Works : Pool → Pool → Type 0 where
  tests_stop :
      {p : Pool} (before after : List Worker) (stop : Bool)
      → p.workers ≡ before ++ at_place at_head stop ∷ after
      → Works p (move p before (at_place (test_stop stop) stop) after)
  finds_nothing :
      {p : Pool} (before after : List Worker) (stop : Bool)
      → p.workers ≡ before ++ at_place locking stop ∷ after
      → holding p.workers ≡ 0
      → take_task p.scheduler ≡ nothing
      → Works p (move p before (at_place (found_nothing stop) stop) after)
  takes :
      {p : Pool} (before after : List Worker) (stop : Bool) (t : ScheduledTask)
      (others : List ScheduledTask) (s : Scheduler)
      → p.workers ≡ before ++ at_place locking stop ∷ after
      → holding p.workers ≡ 0
      → take_task p.scheduler ≡ begins s
      → s.running ≡ t ∷ others
      → Works p (move (record p { scheduler = s }) before (at_place (busy t) stop) after)
  blocks :
      {p : Pool} (before after : List Worker) (stop : Bool)
      → p.workers ≡ before ++ at_place deciding stop ∷ after
      → Works p (move p before (at_place asleep stop) after)
  returns :
      {p : Pool} (before after : List Worker) (stop : Bool) (t : ScheduledTask)
      (started_later started_before : List ScheduledTask)
      → p.workers ≡ before ++ at_place (busy t) stop ∷ after
      → p.scheduler.running ≡ started_later ++ t ∷ started_before
      → Works p (
          move
            (record p { scheduler = finish_task t (started_later ++ started_before) p.scheduler })
            before
            (at_place at_head stop)
            after)
  requests :
      {p : Pool}
      → p.closer ≡ stopping
      → 0 < total unstopped p.workers
      → Works p (record p { workers = request_next p.workers })
  notifies_all :
      {p : Pool}
      → p.closer ≡ stopping
      → total unstopped p.workers ≡ 0
      → Works p (record p { workers = notify_all p.workers; closer = joining })
  joins :
      {p : Pool}
      → p.closer ≡ joining
      → remaining p.workers ≡ 0
      → Works p (record p { workers = []; closer = returned })

-- One step of a thread that schedules, cancels or waits, or that calls `terminate_scheduler`.
pub data Calls : Pool → Pool → Type 0 where
  counts_task :
      {p : Pool} (priority : Priority) (t : ScheduledTask)
      → 0 < size p.workers
      → Calls p (record p { scheduler = count_task priority t p.scheduler })
  puts_task :
      {p : Pool} (before after : List (Priority × ScheduledTask)) (priority : Priority)
      (t : ScheduledTask)
      → p.scheduler.counted ≡ before ++ (priority, t) ∷ after
      → holding p.workers ≡ 0
      → Calls p (record p {
        scheduler = put_task priority t (record p.scheduler { counted = before ++ after });
        unsent = p.unsent + 1;
      })
  wakes :
      {p : Pool} (n : ℕ) (before after : List Worker) (stop : Bool)
      → p.unsent ≡ n + 1
      → p.workers ≡ before ++ at_place asleep stop ∷ after
      → Calls p (move (record p { unsent = n }) before (at_place locking stop) after)
  wakes_nobody :
      {p : Pool} (n : ℕ)
      → p.unsent ≡ n + 1
      → sleeping p.workers ≡ 0
      → Calls p (record p { unsent = n })
  cancels_tag :
      {p : Pool} (tag : ℕ)
      → holding p.workers ≡ 0
      → Calls p (record p { scheduler = cancel_tasks_of_tag tag p.scheduler })
  helps :
      {p : Pool} (schedule : ℕ) (s : Scheduler)
      → 0 < size p.workers
      → holding p.workers ≡ 0
      → wait_round schedule p.scheduler ≡ runs s
      → Calls p (record p { scheduler = s })
  helped :
      {p : Pool} (started_later started_before : List ScheduledTask) (t : ScheduledTask)
      → p.scheduler.running ≡ started_later ++ t ∷ started_before
      → Calls p
          (record p { scheduler = finish_task t (started_later ++ started_before) p.scheduler })
  terminates : {p : Pool} → p.closer ≡ not_called → Calls p (record p { closer = stopping })

-- What a pool can reach in every interleaving, from its start with some `u8`.
pub data PoolReachable : Pool → Type 0 where
  starts :
      (worker_count hw_concurrency : ℕ)
      → worker_count < 256
      → PoolReachable (initialize_scheduler worker_count hw_concurrency)
  works_on : {p p' : Pool} → PoolReachable p → Works p p' → PoolReachable p'
  called : {p p' : Pool} → PoolReachable p → Calls p p' → PoolReachable p'
