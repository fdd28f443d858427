-- ===== src/AsyncOps/Pool/Tests.antt =====
-- AsyncOps.cpp: runs of a pool, and the theorems at their states.
use iacore.Base.{◌+◌, ◌*◌, ◌≤◌, ◌<◌, ◌≡◌, refl, true, false, ◌⊎◌, [], ◌∷◌, arith}
use iacore.AsyncOps.{
  high, ScheduledTask, idle, take_task, take_from, count_task, put_task, start_count, worker_ids,
}
use iacore.AsyncOps.Pool.{
  Place, at_head, locking, deciding, asleep, size, total, holds, unstopped, test_stop,
  found_nothing, Pool, stopping, joining, returned, Works, tests_stop, finds_nothing, terminates,
  PoolReachable, starts, works_on, called, at_place, initialize_scheduler, start_workers,
  get_worker_count, move, notify_all, counts_task, puts_task, not_called,
}
use iacore.AsyncOps.Pool.Counts.{queued}
use iacore.AsyncOps.Pool.Wake.{attending, queued-attended}
use iacore.AsyncOps.Pool.Shutdown.{stays, working}
use iacore.AsyncOps.Pool.Dropped.{notified-ends}
use iacore.AsyncOps.Pool.Lost.{notified, notified-unwoken}

abbrev job : ScheduledTask
job = record { tag = 5; schedule_handle = 3; task = 0 }

-- One worker that has found nothing, while somebody calls `terminate_scheduler`.
abbrev one_at : Place → Pool
one_at place = record {
  scheduler = idle;
  workers = at_place place false ∷ [];
  unsent = 0;
  closer = not_called;
}

abbrev deciding_while_closing : Pool
deciding_while_closing = record (one_at deciding) { closer = stopping }

one_at_head : initialize_scheduler 1 8 ≡ one_at at_head
unfolding initialize_scheduler start_workers start_count worker_ids at_place
one_at_head = refl

one_at_head-Reachable : PoolReachable (one_at at_head)
unfolding initialize_scheduler start_workers start_count worker_ids at_place
one_at_head-Reachable = starts 1 8 (omega arith)

one_at_locking-Reachable : PoolReachable (one_at locking)
unfolding move test_stop
one_at_locking-Reachable = works_on one_at_head-Reachable (tests_stop [] [] false refl)

deciding_while_closing-Reachable : PoolReachable deciding_while_closing
unfolding move found_nothing total holds take_task take_from at_place
deciding_while_closing-Reachable =
    called (works_on one_at_locking-Reachable (finds_nothing [] [] false refl refl refl))
      (terminates refl)

notified-unwoken_example :
    PoolReachable (notified deciding_while_closing)
    × ((notified deciding_while_closing).closer ≡ joining)
unfolding total holds at_place
notified-unwoken_example =
    notified-unwoken deciding_while_closing deciding_while_closing-Reachable refl (omega arith)
      stays

-- A task is in the queue, and the notification is not sent yet.
abbrev with_task : Pool
with_task = record (one_at locking) {
  scheduler = put_task high job (record (count_task high job idle) { counted = [] });
  unsent = 1;
}

with_task-Reachable : PoolReachable with_task
unfolding total holds at_place size count_task
with_task-Reachable =
    called (called one_at_locking-Reachable (counts_task high job (omega arith)))
      (puts_task [] [] high job refl refl)

queued-attended_example : 0 < with_task.unsent + attending with_task.workers
unfolding queued put_task count_task
queued-attended_example = queued-attended with_task-Reachable refl (omega arith)

-- Two workers that have been asked to stop: one sleeps, and one is at the head of its loop.
abbrev two_stopped : Pool
two_stopped = record {
  scheduler = idle;
  workers = at_place asleep true ∷ at_place at_head true ∷ [];
  unsent = 0;
  closer = stopping;
}

abbrev two_notified : Pool
two_notified = record two_stopped { workers = notify_all two_stopped.workers; closer = joining }

notified-ends_example :
    (0 ≤ 3 * size two_stopped.workers + 1)
    × (((two_notified.closer ≡ returned) × (two_notified.workers ≡ []))
        ⊎ (((p'' : Pool) × Works two_notified p'') ⊎ (0 < working two_notified.workers)))
    × (queued two_stopped.scheduler ≤ queued two_notified.scheduler + size two_stopped.workers)
unfolding total holds unstopped at_place
notified-ends_example = notified-ends two_stopped refl refl stays

get_worker_count_test : get_worker_count (initialize_scheduler 7 8) ≡ 7
unfolding get_worker_count initialize_scheduler start_workers start_count worker_ids size
get_worker_count_test = refl
