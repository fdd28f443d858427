-- ===== src/ProcessOps/Tests.antt =====
-- ProcessOps.cpp: lines and arguments by evaluation.
use iacore.Base.{
  ◌&&◌, ◌%◌, ◌/◌, ◌++◌, ◌==◌, ◌≡◌, All, some, ok, not, if◌then◌else◌, refl, List, [], ◌∷◌, Bytes,
  codes, lacks-Lacks, c_str,
}
use mathlib.Core.List.{flatten}
use iacore.ProcessOps.{output_lines, split_arguments, last_token, split_loop, split_char, is_empty}
use iacore.ProcessOps.Child.{
  ChildWorld, Parent, spawn_process_sync, left_open, lines_read, are_distinct,
  spawn_process_sync-left,
}
use iacore.ProcessOps.Redirect.{
  pipe_reader, pipe_writer, other, DescriptorTable, argv, redirect, redirect-outputs,
}
use iacore.ProcessOps.Handle.{
  Kill, HandleState, is_active, new_handle, opens, goes, spawns, spawned,
}
use iacore.ProcessOps.Handle.Signals.{has_number, HandleReachable-signals}
use iacore.ProcessOps.Lines.{lines_of, output_lines_lem}
use iacore.ProcessOps.Arguments.{command_line, non_empty, argv-command_line}

abbrev chunks : List Bytes
chunks = codes "one\ntw" ∷ codes "o\r" ∷ codes "\nthree" ∷ []

three_lines : output_lines chunks ≡ codes "one" ∷ codes "two" ∷ codes "three" ∷ []
unfolding output_lines
three_lines = refl

quoted_arguments :
    split_arguments (codes "a \"b c\" d\\ e \"\"") ≡ codes "a" ∷ codes "b c" ∷ codes "d e" ∷ []
unfolding split_arguments
quoted_arguments = refl

output_lines_lem_example : output_lines chunks ≡ lines_of [] (flatten chunks)
output_lines_lem_example = output_lines_lem chunks

argv-command_line_example :
    argv (codes "run") (command_line (codes "a \"b" ∷ [] ∷ codes "c\\d" ∷ []))
    ≡ codes "run" ∷ codes "a \"b" ∷ codes "c\\d" ∷ []
unfolding non_empty
argv-command_line_example =
    argv-command_line (codes "run") (codes "a \"b" ∷ [] ∷ codes "c\\d" ∷ [])
      (lacks-Lacks 0 (codes "run") refl)
      (lacks-Lacks 0 (codes "a \"b") refl, (tt, (lacks-Lacks 0 (codes "c\\d") refl, tt)))

-- An argument is cut at a zero byte.
cut_argument :
    argv (codes "run") (codes "a" ++ 0 ∷ codes "b c") ≡ codes "run" ∷ codes "a" ∷ codes "c" ∷ []
unfolding argv split_arguments last_token split_loop split_char is_empty c_str
cut_argument = refl

-- A child with the number 40 that exits with 3.
abbrev a_child : ChildWorld
a_child = record {
  pipe = some (5, 6);
  fork = some 40;
  chunks = chunks;
  status = 768;
  wifexited = λ status. status % 128 == 0;
  wexitstatus = λ status. status / 256 % 256;
}

abbrev a_parent : Parent
a_parent = record { descriptors = 0 ∷ 1 ∷ 2 ∷ []; unwaited = []; id = 0 }

exit_3 : (spawn_process_sync a_child a_parent).result ≡ ok 3
unfolding spawn_process_sync
exit_3 = refl

spawn_process_sync-left_example :
    ((spawn_process_sync a_child a_parent).parent.descriptors
      ≡ left_open a_child.pipe a_child.fork ++ a_parent.descriptors)
    × ((spawn_process_sync a_child a_parent).parent.unwaited ≡ a_parent.unwaited)
    × ((spawn_process_sync a_child a_parent).called
        ≡ lines_read a_child.pipe a_child.fork (flatten a_child.chunks))
unfolding are_distinct
spawn_process_sync-left_example = spawn_process_sync-left a_child a_parent refl

-- The descriptors of a child whose pipe has the ends 5 and 6.
abbrev a_table : DescriptorTable
a_table n = if n == 5 then some pipe_reader else if n == 6 then some pipe_writer else some (other n)

redirect-outputs_example :
    (redirect 5 6 a_table 1 ≡ some pipe_writer)
    × (redirect 5 6 a_table 2 ≡ some pipe_writer)
    × (redirect 5 6 a_table 0 ≡ some (other 0))
redirect-outputs_example = redirect-outputs 5 6 a_table 0 refl refl refl refl

abbrev spawned_handle : HandleState
spawned_handle = record new_handle { id = 40; phase = spawned }

HandleReachable-signals_example :
    (is_active spawned_handle ≡ (has_number spawned_handle.phase && not (40 == 0)))
    × All (λ (k : Kill). k.target ≡ 40) spawned_handle.kills
HandleReachable-signals_example = HandleReachable-signals 40 (goes opens (spawns refl))
