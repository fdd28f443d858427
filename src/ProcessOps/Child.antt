-- ===== src/ProcessOps/Child.antt =====
-- Src/IACore/imp/cpp/ProcessOps.cpp: `spawn_process_posix` on both sides of the `fork`, and
-- `spawn_process_sync`. What the operating system answers is the record `ChildWorld`; the parent's
-- open descriptors and its children that nobody has waited for are lists, and the descriptors of the
-- child are a table.
use iacore.Base.{
  ℕ, ◌-◌, ◌^◌, ◌≡◌, refl, ap, ◌∙◌, Bool, true, false, inl, inr, Option, none, some, List, [], ◌∷◌,
  ◌++◌, Bytes, ◌==◌, if◌then◌else◌, Bool-cases, Result, ok, err, arith,
}
use mathlib.Core.List.{flatten}
use iacore.ProcessOps.{output_lines}
use iacore.ProcessOps.Lines.{lines_of, output_lines_lem}

pub data SpawnError : Type 0 where
  pipe_failed fork_failed : SpawnError

-- The answers: the descriptors of `pipe` and the child of `fork` if they succeed, the chunks that
-- `read` returns until it returns 0 or less, the status of `waitpid`, and what the macros tell of it.
pub record ChildWorld : Type 0 where
  pub pipe : Option (ℕ × ℕ)
  pub fork : Option ℕ
  pub chunks : List Bytes
  pub status : ℕ
  pub wifexited : ℕ → Bool
  pub wexitstatus : ℕ → ℕ

-- What the parent holds of the operating system, and the atomic `id`.
pub record Parent : Type 0 where
  pub descriptors : List ℕ
  pub unwaited : List ℕ
  pub id : ℕ

-- What `spawn_process_posix` returns, leaves, and has called the callback with; an `i32` is kept
-- modulo 2 ^ 32.
pub record SpawnedProcess : Type 0 where
  pub result : Result SpawnError ℕ
  pub parent : Parent
  pub called : List Bytes

pub give_back : ℕ → List ℕ → List ℕ
give_back n [] = []
give_back n (x ∷ xs) = let rest = give_back n xs in if x == n then xs else x ∷ rest

pub exit_code : ChildWorld → ℕ
exit_code w = if w.wifexited w.status then w.wexitstatus w.status else 2 ^ 32 - 1

-- The parent's branch.
pub follow_child : ChildWorld → (reader writer pid : ℕ) → Parent → SpawnedProcess
unfolding give_back exit_code
follow_child w reader writer pid p = record {
  result = ok (exit_code w);
  parent = record {
    descriptors = give_back reader (give_back writer p.descriptors);
    unwaited = give_back pid (pid ∷ p.unwaited);
    id = 0;
  };
  called = output_lines w.chunks;
}

pub after_fork : ChildWorld → Option ℕ → (reader writer : ℕ) → Parent → SpawnedProcess
unfolding follow_child
after_fork w none reader writer p = record { result = err fork_failed; parent = p; called = [] }
after_fork w (some pid) reader writer p = follow_child w reader writer pid p

pub after_pipe : ChildWorld → Option (ℕ × ℕ) → Parent → SpawnedProcess
unfolding after_fork
after_pipe w none p = record { result = err pipe_failed; parent = p; called = [] }
after_pipe w (some ends) p =
    after_fork w w.fork ends.0 ends.1 (record p { descriptors = ends.0 ∷ ends.1 ∷ p.descriptors })

pub spawn_process_posix : ChildWorld → Parent → SpawnedProcess
unfolding after_pipe
spawn_process_posix w p = after_pipe w w.pipe p

-- `spawn_process_sync` has an `id` of its own.
unfoldable pub spawn_process_sync : ChildWorld → Parent → SpawnedProcess
unfolding spawn_process_posix
spawn_process_sync w p = spawn_process_posix w (record p { id = 0 })

-- The descriptors that stay open, and the lines that the child has written.
pub left_open : Option (ℕ × ℕ) → Option ℕ → List ℕ
left_open none child = []
left_open (some ends) none = ends.0 ∷ ends.1 ∷ []
left_open (some ends) (some pid) = []

pub lines_read : Option (ℕ × ℕ) → Option ℕ → Bytes → List Bytes
lines_read none child output = []
lines_read (some ends) none output = []
lines_read (some ends) (some pid) output = lines_of [] output

-- The ends of a pipe differ.
unfoldable pub are_distinct : Option (ℕ × ℕ) → Bool
are_distinct none = true
are_distinct (some ends) = if ends.0 == ends.1 then false else true

==-refl : (n : ℕ) → (n == n) ≡ true
==-refl n = ground arith

give_back-first : (n : ℕ) (xs : List ℕ) → give_back n (n ∷ xs) ≡ xs
unfolding give_back
give_back-first n xs = rw (==-refl n) refl

give_back-both :
    (reader writer : ℕ) (xs : List ℕ)
    → are_distinct (some (reader, writer)) ≡ true
    → give_back reader (give_back writer (reader ∷ writer ∷ xs)) ≡ xs
unfolding give_back are_distinct
give_back-both reader writer xs distinct = elim (Bool-cases (reader == writer)) [
  | inl same ↦ ground (arith, same, distinct)
  | inr differ ↦ rw differ (
      ap (λ ys. give_back reader (reader ∷ ys)) (give_back-first writer xs)
      ∙ give_back-first reader xs)
]

after_fork-left :
    (w : ChildWorld) (child : Option ℕ) (reader writer : ℕ) (p : Parent)
    → are_distinct (some (reader, writer)) ≡ true
    → let after =
        after_fork w child reader writer
          (record p { descriptors = reader ∷ writer ∷ p.descriptors }) in
      (after.parent.descriptors ≡ left_open (some (reader, writer)) child ++ p.descriptors)
      × (after.parent.unwaited ≡ p.unwaited)
      × (after.called ≡ lines_read (some (reader, writer)) child (flatten w.chunks))
unfolding after_fork follow_child left_open lines_read
after_fork-left w none reader writer p distinct = (refl, refl, refl)
after_fork-left w (some pid) reader writer p distinct = (
  give_back-both reader writer p.descriptors distinct,
  give_back-first pid p.unwaited,
  output_lines_lem w.chunks,
)

after_pipe-left :
    (w : ChildWorld) (ends : Option (ℕ × ℕ)) (p : Parent)
    → are_distinct ends ≡ true
    → let after = after_pipe w ends p in
      (after.parent.descriptors ≡ left_open ends w.fork ++ p.descriptors)
      × (after.parent.unwaited ≡ p.unwaited)
      × (after.called ≡ lines_read ends w.fork (flatten w.chunks))
unfolding after_pipe left_open lines_read
after_pipe-left w none p distinct = (refl, refl, refl)
after_pipe-left w (some ends) p distinct = after_fork-left w w.fork ends.0 ends.1 p distinct

-- On every branch of `spawn_process_sync` the parent waits for each child that it starts and closes both ends of the pipe,
-- unless `fork` fails: then both stay open. The callback gets the lines of the child's whole output, and nothing when
-- there is no child. The two ends of a pipe differ.
pub spawn_process_sync-left :
    (w : ChildWorld) (p : Parent)
    → are_distinct w.pipe ≡ true
    → let after = spawn_process_sync w p in
      (after.parent.descriptors ≡ left_open w.pipe w.fork ++ p.descriptors)
      × (after.parent.unwaited ≡ p.unwaited)
      × (after.called ≡ lines_read w.pipe w.fork (flatten w.chunks))
unfolding spawn_process_sync spawn_process_posix
spawn_process_sync-left w p distinct = after_pipe-left w w.pipe (record p { id = 0 }) distinct
