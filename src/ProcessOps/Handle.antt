-- ===== src/ProcessOps/Handle.antt =====
-- Src/IACore/inc/IACore/ProcessOps.hpp and Src/IACore/imp/cpp/ProcessOps.cpp: ProcessHandle, the thread of
-- `spawn_process_async`, and `terminate_process` from another thread. A step is one atomic operation,
-- one wait for the child, or one signal. The number of the child is a parameter.
pub mod Signals
use iacore.Base.{
  ℕ, ◌<◌, ◌≡◌, refl, Bool, true, false, ◌&&◌, not, ◌⊎◌, inl, inr, List, [], ◌∷◌, ◌==◌, ltb,
  if◌then◌else◌, Result, ok, err, All, arith,
}

-- Where the thread is: before the child, with its number stored, past `waitpid`, with the number
-- cleared (or without a child), ended.
pub data Phase : Type 0 where
  starting spawned reaped cleared ended : Phase

-- Where a call of `terminate_process` is: not called, past the load of `is_running` in `is_active`,
-- past that of `id`, with the number that it loads then.
pub data Killer : Type 0 where
  away saw_running saw_id : Killer
  loaded : ℕ → Killer

-- A signal: to whom, and whether the child was waited for already.
pub record Kill : Type 0 where
  pub target : ℕ
  pub late : Bool

-- The two atomics of a ProcessHandle, the threads, and the signals, newest first.
pub record HandleState : Type 0 where
  pub id : ℕ
  pub is_running : Bool
  pub phase : Phase
  pub killer : Killer
  pub kills : List Kill

pub is_active : HandleState → Bool
is_active s = s.is_running && not (s.id == 0)

abbrev pub new_handle : HandleState
new_handle = record { id = 0; is_running = true; phase = starting; killer = away; kills = [] }

pub is_late : Phase → Bool
is_late starting = false
is_late spawned = false
is_late reaped = true
is_late cleared = true
is_late ended = true

pub data HandleStep (pid : ℕ) : HandleState → HandleState → Type 0 where
  spawns :
      {s : HandleState}
      → s.phase ≡ starting
      → HandleStep pid s (record s { id = pid; phase = spawned })
  fails : {s : HandleState} → s.phase ≡ starting → HandleStep pid s (record s { phase = cleared })
  waits_for : {s : HandleState} → s.phase ≡ spawned → HandleStep pid s (record s { phase = reaped })
  clears :
      {s : HandleState} → s.phase ≡ reaped → HandleStep pid s (record s { id = 0; phase = cleared })
  ends :
      {s : HandleState}
      → s.phase ≡ cleared
      → HandleStep pid s (record s { is_running = false; phase = ended })
  loads_running :
      {s : HandleState}
      → s.killer ≡ away
      → HandleStep pid s (record s { killer = if s.is_running then saw_running else away })
  tests_id :
      {s : HandleState}
      → s.killer ≡ saw_running
      → HandleStep pid s (record s { killer = if s.id == 0 then away else saw_id })
  loads_id :
      {s : HandleState}
      → s.killer ≡ saw_id
      → HandleStep pid s (record s { killer = if s.id == 0 then away else loaded s.id })
  kills_it :
      {s : HandleState} (target : ℕ)
      → s.killer ≡ loaded target
      → HandleStep pid s (record s {
        killer = away;
        kills = record { target = target; late = is_late s.phase } ∷ s.kills;
      })

pub data HandleReachable (pid : ℕ) : HandleState → Type 0 where
  opens : HandleReachable pid new_handle
  goes : {s s' : HandleState} → HandleReachable pid s → HandleStep pid s s' → HandleReachable pid s'

-- What the thread passes to `on_finish_callback`, if there is one.
pub finish : (has_callback : Bool) → {E : Type 0} → Result E ℕ → List (Result E ℕ)
finish true r = r ∷ []
finish false r = []
