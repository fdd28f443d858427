-- ===== src/System/Cli.antt =====
-- Src/IACore/inc/IACore/CLI.hpp and Src/IACore/imp/cpp/CLI.cpp: CLIParser. The iterator is an index
-- into the arguments. The law is in Cli/Order.
pub mod Order
use iacore.Base.{
  ℕ, zero, suc, ◌+◌, Bool, true, false, List, [], ◌∷◌, Bytes, length, ltb, ◌==◌, if◌then◌else◌,
}

pub record CliParser : Type 0 where
  pub m_arg_list : List Bytes
  pub m_current_arg : ℕ

-- The constructor skips the path of the executable.
unfoldable pub new_parser : List Bytes → CliParser
new_parser [] = record { m_arg_list = []; m_current_arg = 0 }
new_parser (path ∷ args) = record { m_arg_list = path ∷ args; m_current_arg = 1 }

unfoldable pub remaining : CliParser → Bool
remaining p = ltb p.m_current_arg (length p.m_arg_list)

unfoldable pub argument_at : List Bytes → ℕ → Bytes
argument_at [] i = []
argument_at (arg ∷ args) zero = arg
argument_at (arg ∷ args) (suc i) = argument_at args i

pub peek : CliParser → Bytes
unfolding argument_at remaining
peek p = if remaining p then argument_at p.m_arg_list p.m_current_arg else []

unfoldable pub next : CliParser → Bytes × CliParser
unfolding argument_at remaining
next p =
    if remaining p
    then (
      argument_at p.m_arg_list p.m_current_arg,
      record p { m_current_arg = p.m_current_arg + 1 },
    )
    else ([], p)

pub same_text : Bytes → Bytes → Bool
same_text [] [] = true
same_text [] (d ∷ t) = false
same_text (c ∷ s) [] = false
same_text (c ∷ s) (d ∷ t) = if c == d then same_text s t else false

pub consume : Bytes → CliParser → Bool × CliParser
unfolding peek next same_text
consume expected p = if same_text (peek p) expected then (true, (next p).1) else (false, p)
