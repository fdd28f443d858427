-- ===== src/AsyncOps/Tests.antt =====
-- AsyncOps.cpp: a run of the scheduler, and the theorems at its states.
use iacore.Base.{◌≡◌, refl, false, [], ◌∷◌, arith}
use iacore.AsyncOps.{
  high, ScheduledTask, Scheduler, idle, fetch_add, fetch_sub, count_task, put_task, worker_round,
  wait_round, finish_task, is_positive, counts, puts, works, finishes, Reachable, start, next,
}
use iacore.AsyncOps.Counters.{
  tasks_of, counted_of, pending, IsCounted, Reachable-IsCounted, wait_round_complete,
}

-- One task of the schedule 3.
abbrev job : ScheduledTask
job = record { tag = 5; schedule_handle = 3; task = 0 }

abbrev counted_once : Scheduler
counted_once = count_task high job idle

abbrev queued : Scheduler
queued = put_task high job (record counted_once { counted = [] })

abbrev busy : Scheduler
busy = record queued { high_priority_queue = []; running = job ∷ [] }

abbrev done : Scheduler
done = finish_task job [] busy

queued-Reachable : Reachable queued
unfolding count_task
queued-Reachable = next (next start (counts high job)) (puts [] [] high job refl)

busy-Reachable : Reachable busy
unfolding worker_round count_task put_task
busy-Reachable = next queued-Reachable (works false false refl)

done-Reachable : Reachable done
unfolding count_task put_task
done-Reachable = next busy-Reachable (finishes [] [] job refl)

Reachable-IsCounted_example : IsCounted 3 busy
Reachable-IsCounted_example = Reachable-IsCounted 3 busy-Reachable

wait_round_complete_example : pending 3 done ≡ 0
unfolding pending tasks_of counted_of wait_round is_positive count_task put_task finish_task
    fetch_add fetch_sub
wait_round_complete_example = wait_round_complete 3 done done-Reachable (omega arith) refl
