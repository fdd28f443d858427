-- ===== src/System/Counts/Balance.antt =====
-- IACore.cpp: the logger is initialized once as long as IACore is.
use iacore.Base.{
  ℕ, ◌+◌, ◌-◌, ◌%◌, ◌^◌, ◌<◌, ◌≤◌, ◌≡◌, refl, inl, inr, true, List, [], ◌∷◌, ◌++◌, ltb,
  if◌then◌else◌, Bool-cases, arith,
}
use iacore.System.Counts.{
  count_mod, is_above, LibraryCall, logger_initialize, logger_terminate, initialize, terminate,
  is_initialized,
}

unfoldable pub initializations : List LibraryCall → ℕ
initializations [] = 0
initializations (logger_initialize ∷ calls) = 1 + initializations calls
initializations (logger_terminate ∷ calls) = initializations calls

unfoldable pub terminations : List LibraryCall → ℕ
terminations [] = 0
terminations (logger_initialize ∷ calls) = terminations calls
terminations (logger_terminate ∷ calls) = 1 + terminations calls

-- How often `initialize` was called, the count, and the calls, the last first, when no `terminate` is without its
-- `initialize`.
pub data Run : ℕ → ℕ → List LibraryCall → Type 0 where
  start : Run 0 0 []
  initializes :
      {n count : ℕ} {calls : List LibraryCall}
      → Run n count calls
      → Run (n + 1) (initialize count).0 ((initialize count).1 ++ calls)
  terminates :
      {n count : ℕ} {calls : List LibraryCall}
      → Run n count calls
      → is_initialized count ≡ true
      → Run n (terminate count).0 ((terminate count).1 ++ calls)

count_le : {n count : ℕ} {calls : List LibraryCall} → Run n count calls → n < 2 ^ 31 → count ≤ n
unfolding initialize terminate is_initialized is_above
count_le start small = omega arith
count_le (initializes {n} {count} run) small = let low = count_le run (omega arith) in ground arith
count_le (terminates {n} {count} run up) small = let low = count_le run small in ground arith

-- In a run in which no `terminate` is without its `initialize`, and `initialize` is called fewer than 2 ^ 31 times, so
-- that the `i32` does not wrap around: the logger has been initialized once more than terminated while IACore is
-- initialized, and as often when it is not.
pub Run-logger :
    {n count : ℕ} {calls : List LibraryCall}
    → Run n count calls
    → n < 2 ^ 31
    → initializations calls ≡ (if is_initialized count then 1 else 0) + terminations calls
unfolding initializations terminations is_initialized initialize terminate is_above
Run-logger start small = refl
Run-logger (initializes {n} {count} {calls} run) small =
    let low = count_le run (omega arith) in
    let before = Run-logger run (omega arith) in
    let next : (count + 1) % count_mod ≡ count + 1 = omega arith in
    rw next (elim (Bool-cases (ltb 1 (count + 1))) [
      | inl more ↦ rw more (ground (arith, before, low, more))
      | inr first ↦ rw first (ground (arith, before, low, first))
    ])
Run-logger (terminates {n} {count} {calls} run up) small =
    let low = count_le run small in
    let before = Run-logger run small in
    let next : (count + count_mod - 1) % count_mod ≡ count - 1 = ground (arith, up) in
    rw next (elim (Bool-cases (ltb 0 (count - 1))) [
      | inl more ↦ rw more (ground (arith, before, low, more, up))
      | inr last ↦ rw last (ground (arith, before, low, last, up))
    ])
