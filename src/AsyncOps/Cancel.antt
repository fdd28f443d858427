-- ===== src/AsyncOps/Cancel.antt =====
-- AsyncOps.cpp: what cancelling removes, the order of the queues, and the number of workers.
use iacore.Base.{
  ℕ, ◌≤◌, ◌<◌, ◌≡◌, refl, ap, inl, inr, List, [], ◌∷◌, ◌==◌, if◌then◌else◌, Bool-cases, arith,
}
use iacore.AsyncOps.{
  ScheduledTask, Counters, Scheduler, fetch_sub, cancel_in, cancel_tasks_of_tag, start_count,
}

-- The tasks of a queue that have another tag, in the order of the queue.
pub without : ℕ → List ScheduledTask → List ScheduledTask
without tag [] = []
without tag (t ∷ queue) = if t.tag == tag then without tag queue else t ∷ without tag queue

cancel_in-without :
    (tag : ℕ) (queue : List ScheduledTask) (c : Counters)
    → (cancel_in tag queue c).0 ≡ without tag queue
unfolding cancel_in without
cancel_in-without tag [] c = refl
cancel_in-without tag (t ∷ queue) c = elim (Bool-cases (t.tag == tag)) [
  | inl same ↦ rw same (cancel_in-without tag queue (fetch_sub t.schedule_handle c))
  | inr other ↦ rw other (ap (λ q. t ∷ q) (cancel_in-without tag queue c))
]

-- Cancelling a tag removes its tasks from both queues and keeps all others in their order.
pub cancel_tasks_of_tag-without :
    (tag : ℕ) (s : Scheduler)
    → ((cancel_tasks_of_tag tag s).high_priority_queue ≡ without tag s.high_priority_queue)
      × ((cancel_tasks_of_tag tag s).normal_priority_queue ≡ without tag s.normal_priority_queue)
unfolding cancel_tasks_of_tag
cancel_tasks_of_tag-without tag s = (
  cancel_in-without tag s.high_priority_queue s.counters,
  cancel_in-without tag s.normal_priority_queue (cancel_in tag s.high_priority_queue s.counters).1,
)

-- `initialize_scheduler` starts at least one worker and at most 255, for every argument that is a `u8` and every
-- number of processors, and exactly as many as are asked for when the argument is not 0.
pub start_count_lem :
    (worker_count hw_concurrency : ℕ)
    → worker_count < 256
    → (0 < start_count worker_count hw_concurrency)
      × (start_count worker_count hw_concurrency ≤ 255)
      × (0 < worker_count → start_count worker_count hw_concurrency ≡ worker_count)
unfolding start_count
start_count_lem worker_count hw_concurrency h = (ground arith, ground arith, λ pos. ground arith)
