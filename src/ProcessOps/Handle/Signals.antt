-- ===== src/ProcessOps/Handle/Signals.antt =====
-- ProcessOps.cpp: whom `terminate_process` signals, and when.
use iacore.Base.{
  ℕ, ◌≡◌, refl, ap, ◌∙◌, Bool, true, false, ◌&&◌, not, ◌⊎◌, inl, inr, [], ◌∷◌, ◌==◌, if◌then◌else◌,
  Bool-cases, All,
}
use iacore.ProcessOps.Handle.{
  Phase, starting, spawned, reaped, cleared, ended, Killer, away, saw_running, saw_id, loaded, Kill,
  HandleState, is_active, is_late, HandleStep, spawns, fails, waits_for, clears, ends,
  loads_running, tests_id, loads_id, kills_it, HandleReachable, opens, goes,
}

-- The atomics by the phase.
pub id_in : ℕ → Phase → ℕ
id_in pid starting = 0
id_in pid spawned = pid
id_in pid reaped = pid
id_in pid cleared = 0
id_in pid ended = 0

pub running_in : Phase → Bool
running_in starting = true
running_in spawned = true
running_in reaped = true
running_in cleared = true
running_in ended = false

pub IsChild : ℕ → Killer → Type 0
IsChild pid away = Unit {0}
IsChild pid saw_running = Unit {0}
IsChild pid saw_id = Unit {0}
IsChild pid (loaded target) = target ≡ pid

-- The atomics follow the thread, and a number that is loaded is the child's.
pub IsFollowed : ℕ → HandleState → Type 0
IsFollowed pid s =
    (s.id ≡ id_in pid s.phase)
    × (s.is_running ≡ running_in s.phase)
    × IsChild pid s.killer
    × All (λ (k : Kill). k.target ≡ pid) s.kills

id_in-cases : (pid : ℕ) (phase : Phase) → (id_in pid phase ≡ 0) ⊎ (id_in pid phase ≡ pid)
unfolding id_in
id_in-cases pid starting = inl refl
id_in-cases pid spawned = inr refl
id_in-cases pid reaped = inr refl
id_in-cases pid cleared = inl refl
id_in-cases pid ended = inl refl

loaded-IsChild :
    (pid id : ℕ) → (id ≡ 0) ⊎ (id ≡ pid) → IsChild pid (if id == 0 then away else loaded id)
unfolding IsChild
loaded-IsChild pid id (inl none) = rw none tt
loaded-IsChild pid id (inr same) = elim (Bool-cases (id == 0)) [
  | inl zero_id ↦ rw zero_id tt
  | inr other ↦ rw other same
]

before_id-IsChild : (pid : ℕ) (b : Bool) → IsChild pid (if b then away else saw_id)
unfolding IsChild
before_id-IsChild pid true = tt
before_id-IsChild pid false = tt

before_running-IsChild : (pid : ℕ) (b : Bool) → IsChild pid (if b then saw_running else away)
unfolding IsChild
before_running-IsChild pid true = tt
before_running-IsChild pid false = tt

HandleStep-IsFollowed :
    (pid : ℕ) {s s' : HandleState} → HandleStep pid s s' → IsFollowed pid s → IsFollowed pid s'
unfolding IsFollowed id_in running_in IsChild
HandleStep-IsFollowed pid (spawns e) (i, r, k, all) = (refl, r ∙ ap running_in e, k, all)
HandleStep-IsFollowed pid (fails e) (i, r, k, all) =
    (i ∙ ap (id_in pid) e, r ∙ ap running_in e, k, all)
HandleStep-IsFollowed pid (waits_for e) (i, r, k, all) =
    (i ∙ ap (id_in pid) e, r ∙ ap running_in e, k, all)
HandleStep-IsFollowed pid (clears e) (i, r, k, all) = (refl, r ∙ ap running_in e, k, all)
HandleStep-IsFollowed pid (ends e) (i, r, k, all) = (i ∙ ap (id_in pid) e, refl, k, all)
HandleStep-IsFollowed pid {s} (loads_running e) (i, r, k, all) =
    (i, r, before_running-IsChild pid s.is_running, all)
HandleStep-IsFollowed pid {s} (tests_id e) (i, r, k, all) =
    (i, r, before_id-IsChild pid (s.id == 0), all)
HandleStep-IsFollowed pid {s} (loads_id e) (i, r, k, all) = (
  i,
  r,
  loaded-IsChild pid s.id
      (elim (id_in-cases pid s.phase) [ inl none ↦ inl (i ∙ none) | inr same ↦ inr (i ∙ same) ]),
  all,
)
HandleStep-IsFollowed pid {s} (kills_it target e) (i, r, k, all) = (i, r, tt, (rw e at k, all))

HandleReachable-IsFollowed : (pid : ℕ) {s : HandleState} → HandleReachable pid s → IsFollowed pid s
unfolding IsFollowed id_in running_in IsChild
HandleReachable-IsFollowed pid opens = (refl, refl, tt, tt)
HandleReachable-IsFollowed pid (goes r step) =
    HandleStep-IsFollowed pid step (HandleReachable-IsFollowed pid r)

-- Whether the thread has a child whose number is not cleared yet.
pub has_number : Phase → Bool
has_number starting = false
has_number spawned = true
has_number reaped = true
has_number cleared = false
has_number ended = false

active_by_phase :
    (pid : ℕ) (phase : Phase)
    → (running_in phase && not (id_in pid phase == 0)) ≡ (has_number phase && not (pid == 0))
unfolding running_in id_in has_number
active_by_phase pid starting = refl
active_by_phase pid spawned = refl
active_by_phase pid reaped = refl
active_by_phase pid cleared = refl
active_by_phase pid ended = refl

-- In every interleaving `is_active` tells whether the thread of `spawn_process_async` has stored the number of its child
-- and not yet cleared it, and each signal of `terminate_process` goes to that child's number.
pub HandleReachable-signals :
    (pid : ℕ) {s : HandleState}
    → HandleReachable pid s
    → (is_active s ≡ (has_number s.phase && not (pid == 0)))
      × All (λ (k : Kill). k.target ≡ pid) s.kills
unfolding is_active IsFollowed
HandleReachable-signals pid {s} r =
    let (i, running, k, all) = HandleReachable-IsFollowed pid r in
    (rw i (rw running (active_by_phase pid s.phase)), all)

-- The state in which the signal has come after the wait.
pub late_signal : ℕ → HandleState
late_signal pid = record {
  id = pid;
  is_running = true;
  phase = reaped;
  killer = away;
  kills = record { target = pid; late = true } ∷ [];
}

-- The child's number can be loaded by `terminate_process` before the thread waits for the child, and be signalled after
-- that, when the system may have given it to another process.
pub late_signal-HandleReachable :
    (pid : ℕ) → (pid == 0) ≡ false → HandleReachable pid (late_signal pid)
unfolding late_signal is_late
late_signal-HandleReachable pid positive =
    let active = goes (goes opens (spawns refl)) (loads_running refl) in
    let tested = goes active (tests_id refl) in
    let held = goes tested (loads_id (ap (λ b. if b then away else saw_id) positive)) in
    let waited = goes held (waits_for refl) in
    goes waited (kills_it pid (ap (λ b. if b then away else loaded pid) positive))
