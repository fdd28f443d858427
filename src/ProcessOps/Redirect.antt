-- ===== src/ProcessOps/Redirect.antt =====
-- Src/IACore/imp/cpp/ProcessOps.cpp: the child's side of `spawn_process_posix`, which puts the writing
-- end of the pipe in the place of its two standard outputs. A table says what each descriptor of the
-- child stands for. `dup2` from an open descriptor to itself changes nothing.
use iacore.Base.{
  ℕ, ◌<◌, ◌≡◌, ap, ◌∙◌, false, Option, none, some, List, ◌∷◌, map, Bytes, c_str, ◌==◌,
  if◌then◌else◌, arith,
}
use iacore.ProcessOps.{split_arguments}

pub data File : Type 0 where
  pipe_reader pipe_writer : File
  other : ℕ → File

abbrev pub DescriptorTable : Type 0
DescriptorTable = ℕ → Option File

pub close_descriptor : ℕ → DescriptorTable → DescriptorTable
close_descriptor fd t n = if n == fd then none else t n

pub dup2 : (old new : ℕ) → DescriptorTable → DescriptorTable
dup2 old new t n = if n == new then t old else t n

-- The child before `execvp`: the ends of the pipe are `reader` and `writer`.
pub redirect : (reader writer : ℕ) → DescriptorTable → DescriptorTable
unfolding close_descriptor dup2
redirect reader writer t =
    close_descriptor writer (dup2 writer 2 (dup2 writer 1 (close_descriptor reader t)))

-- What it executes: the command with the arguments that are cut from the text, each a C string.
unfoldable pub argv : Bytes → Bytes → List Bytes
unfolding split_arguments
argv command args = map c_str (command ∷ split_arguments args)

differs : (n m : ℕ) → m < n → (n == m) ≡ false
differs n m h = ground arith

redirect-stdout :
    (reader writer : ℕ) (t : DescriptorTable)
    → (reader == writer) ≡ false
    → redirect reader writer t 1 ≡ (if writer == 1 then none else t writer)
unfolding redirect close_descriptor dup2
redirect-stdout reader writer t distinct = ground arith

redirect-stderr :
    (reader writer : ℕ) (t : DescriptorTable)
    → (reader == writer) ≡ false
    → redirect reader writer t 2 ≡ (if writer == 2 then none else t writer)
unfolding redirect close_descriptor dup2
redirect-stderr reader writer t distinct = ground arith

-- The child's two standard outputs are the pipe, except that the one whose number the writing end has is closed instead;
-- any other descriptor is closed if it is an end of the pipe, and is what it was if not. The ends differ, and the writing
-- end is open.
pub redirect-outputs :
    (reader writer : ℕ) (t : DescriptorTable) (n : ℕ)
    → (reader == writer) ≡ false
    → t writer ≡ some pipe_writer
    → (n == 1) ≡ false
    → (n == 2) ≡ false
    → (redirect reader writer t 1 ≡ (if writer == 1 then none else some pipe_writer))
      × (redirect reader writer t 2 ≡ (if writer == 2 then none else some pipe_writer))
      × (redirect reader writer t n
          ≡ (if n == writer then none else if n == reader then none else t n))
unfolding redirect close_descriptor dup2
redirect-outputs reader writer t n distinct is_open not_1 not_2 = (
  redirect-stdout reader writer t distinct ∙ ap (λ f. if writer == 1 then none else f) is_open,
  redirect-stderr reader writer t distinct ∙ ap (λ f. if writer == 2 then none else f) is_open,
  ground arith,
)
