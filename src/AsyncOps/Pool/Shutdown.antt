-- ===== src/AsyncOps/Pool/Shutdown.antt =====
-- AsyncOps.cpp: when `terminate_scheduler` returns.
use iacore.Base.{
  ℕ, suc, ◌+◌, ◌≤◌, ◌≡◌, refl, ap, Bool, true, false, ◌⊎◌, inl, inr, List, [], ◌∷◌, ◌++◌, arith,
}
use iacore.AsyncOps.Pool.{
  Place, at_head, locking, deciding, asleep, busy, gone, Worker, size, total, holds, sleeps,
  unstopped, holding, sleeping, Pool, joining, returned, Works, tests_stop, finds_nothing, takes,
  blocks, returns, requests, notifies_all, joins, at_place, test_stop, found_nothing, move,
}
use iacore.AsyncOps.Pool.Counts.{total-middle, size-middle, total-move}

-- A run of the workers and of `terminate_scheduler`, and the number of its steps.
pub data Run : ℕ → Pool → Pool → Type 0 where
  stays : {p : Pool} → Run 0 p p
  then : {n : ℕ} {p p' p'' : Pool} → Run n p p' → Works p' p'' → Run (suc n) p p''

-- The steps that a worker takes at most, once it has been asked to stop.
unfoldable pub steps : Place → ℕ
steps at_head = 1
steps locking = 3
steps deciding = 0
steps asleep = 0
steps (busy t) = 2
steps gone = 0

abbrev pub steps_left : List Worker → ℕ
steps_left = total (λ w. steps w.place)

-- Whether a worker is in a task.
unfoldable pub works : Place → ℕ
works at_head = 0
works locking = 0
works deciding = 0
works asleep = 0
works (busy t) = 1
works gone = 0

abbrev pub working : List Worker → ℕ
working = total (λ w. works w.place)

-- The pool is being joined, and nobody is left behind.
unfoldable pub IsLeaving : Pool → Type 0
IsLeaving p =
    (p.closer ≡ joining)
    × (total unstopped p.workers ≡ 0)
    × (sleeping p.workers ≡ 0)
    × (holding p.workers ≡ 0)

-- If everybody has been asked to stop, then each of them has.
pub stopped-true :
    (workers before after : List Worker) (place : Place) (stop : Bool)
    → total unstopped workers ≡ 0
    → workers ≡ before ++ at_place place stop ∷ after
    → stop ≡ true
unfolding unstopped at_place
stopped-true workers before after place true none e = refl
stopped-true workers before after place false none e = absurd (
    omega (
      arith,
      none,
      ap (total unstopped) e,
      total-middle unstopped before after (at_place place false),
    ))

-- What a move does to the numbers.
pub leaving_move :
    (workers before after : List Worker) (place place' : Place) (stop : Bool)
    → workers ≡ before ++ at_place place stop ∷ after
    → let workers' = before ++ at_place place' stop ∷ after in
      (total unstopped workers' ≡ total unstopped workers)
      × (sleeping workers' + sleeps place ≡ sleeping workers + sleeps place')
      × (holding workers' + holds place ≡ holding workers + holds place')
      × (steps_left workers' + steps place ≡ steps_left workers + steps place')
      × (sleeps place' + holds place' ≤ sleeping workers' + holding workers')
unfolding at_place unstopped
leaving_move workers before after place place' stop e =
    let w = at_place place stop in
    let w' = at_place place' stop in
    (
      omega (arith, total-move unstopped workers before after w w' e),
      total-move (λ v. sleeps v.place) workers before after w w' e,
      total-move (λ v. holds v.place) workers before after w w' e,
      total-move (λ v. steps v.place) workers before after w w' e,
      omega (
        arith,
        total-middle (λ v. sleeps v.place) before after w',
        total-middle (λ v. holds v.place) before after w',
      ),
    )

-- While nobody is left behind, each step brings the end nearer, or is the end.
pub Works-IsLeaving :
    {p p' : Pool}
    → Works p p'
    → IsLeaving p
    → (IsLeaving p' × (1 + steps_left p'.workers ≤ steps_left p.workers))
      ⊎ ((p'.closer ≡ returned) × (p'.workers ≡ []))
unfolding move IsLeaving steps sleeps holds test_stop found_nothing
Works-IsLeaving {p} (tests_stop before after false e) (closer, asked, none, free) =
    let asked' = stopped-true p.workers before after at_head false asked e in cc
Works-IsLeaving {p} (tests_stop before after true e) (closer, asked, none, free) =
    let (s1, s2, s3, s4, s5) = leaving_move p.workers before after at_head gone true e in
    inl ((closer, omega arith, omega arith, omega arith), omega arith)
Works-IsLeaving {p} (finds_nothing before after false e idle found) (closer, asked, none, free) =
    let asked' = stopped-true p.workers before after locking false asked e in cc
Works-IsLeaving {p} (finds_nothing before after true e idle found) (closer, asked, none, free) =
    let (s1, s2, s3, s4, s5) = leaving_move p.workers before after locking gone true e in
    inl ((closer, omega arith, omega arith, omega arith), omega arith)
Works-IsLeaving {p} (takes before after stop t others s e idle found same)
      (closer, asked, none, free) =
    let (s1, s2, s3, s4, s5) = leaving_move p.workers before after locking (busy t) stop e in
    inl ((closer, omega arith, omega arith, omega arith), omega arith)
Works-IsLeaving {p} (blocks before after stop e) (closer, asked, none, free) =
    let (s1, s2, s3, s4, s5) = leaving_move p.workers before after deciding asleep stop e in
    absurd (omega arith)
Works-IsLeaving {p} (returns before after stop t later earlier e running)
      (closer, asked, none, free) =
    let (s1, s2, s3, s4, s5) = leaving_move p.workers before after (busy t) at_head stop e in
    inl ((closer, omega arith, omega arith, omega arith), omega arith)
Works-IsLeaving (requests e some) (closer, asked, none, free) = cc
Works-IsLeaving (notifies_all e asked') (closer, asked, none, free) = cc
Works-IsLeaving (joins e left) (closer, asked, none, free) = inr (refl, refl)

-- Where the workers are gone, nobody moves.
pub Works-none : {p p' : Pool} → Works p p' → p.closer ≡ returned → size p.workers ≡ 0 → 1 ≤ 0
Works-none (tests_stop before after stop e) over none =
    omega (arith, ap size e, size-middle before after (at_place at_head stop))
Works-none (finds_nothing before after stop e idle found) over none =
    omega (arith, ap size e, size-middle before after (at_place locking stop))
Works-none (takes before after stop t others s e idle found same) over none =
    omega (arith, ap size e, size-middle before after (at_place locking stop))
Works-none (blocks before after stop e) over none =
    omega (arith, ap size e, size-middle before after (at_place deciding stop))
Works-none (returns before after stop t later earlier e running) over none =
    omega (arith, ap size e, size-middle before after (at_place (busy t) stop))
Works-none (requests e some) over none = cc
Works-none (notifies_all e asked) over none = cc
Works-none (joins e left) over none = cc
