-- ===== src/System/Cli/Order.antt =====
-- CLI.hpp: the arguments come in order, without the path of the executable.
use iacore.Base.{
  ℕ, zero, suc, ◌+◌, ◌≤◌, ◌<◌, ◌≡◌, refl, sym, ap, ◌∙◌, List, [], ◌∷◌, Bytes, length, drop, ltb,
  if◌then◌else◌, inl, inr, Bool-cases, arith,
}
use iacore.System.Cli.{CliParser, new_parser, remaining, argument_at, next}

-- `while (parser.remaining()) f(parser.next())`, at most `rounds` rounds: what `f` is called with.
unfoldable pub all_arguments : ℕ → CliParser → List Bytes
all_arguments zero p = []
all_arguments (suc rounds) p =
    let later = all_arguments rounds (next p).1 in if remaining p then (next p).0 ∷ later else []

argument_at-drop :
    (args : List Bytes) (i : ℕ)
    → i < length args
    → argument_at args i ∷ drop (suc i) args ≡ drop i args
unfolding argument_at
argument_at-drop [] i h = absurd (omega arith)
argument_at-drop (arg ∷ args) zero h = refl
argument_at-drop (arg ∷ args) (suc i) h = argument_at-drop args i (omega arith)

drop_past : (args : List Bytes) (i : ℕ) → length args ≤ i → drop i args ≡ []
drop_past [] zero h = refl
drop_past [] (suc i) h = refl
drop_past (arg ∷ args) zero h = absurd (omega arith)
drop_past (arg ∷ args) (suc i) h = drop_past args i (omega arith)

all_arguments-drop :
    (rounds : ℕ) (p : CliParser)
    → length p.m_arg_list ≤ p.m_current_arg + rounds
    → all_arguments rounds p ≡ drop p.m_current_arg p.m_arg_list
unfolding all_arguments next remaining
all_arguments-drop zero p h = sym (drop_past p.m_arg_list p.m_current_arg (omega arith))
all_arguments-drop (suc rounds) p h =
    elim (Bool-cases (ltb p.m_current_arg (length p.m_arg_list))) [
      | inl more ↦
          let at = p.m_current_arg in
          let step : at + 1 ≡ suc at = omega arith in
          let rest =
            all_arguments-drop rounds (record p { m_current_arg = at + 1 }) (omega arith) in
          rw more (
            ap (λ l. argument_at p.m_arg_list at ∷ l) (rest ∙ ap (λ i. drop i p.m_arg_list) step)
            ∙ argument_at-drop p.m_arg_list at (ground arith))
      | inr over ↦ rw over (sym (drop_past p.m_arg_list p.m_current_arg (ground arith)))
    ]

-- With enough rounds, a client that takes the next argument while one remains gets all arguments behind the path of
-- the executable, once and in order.
pub all_arguments-new_parser :
    (path : Bytes) (args : List Bytes) (rounds : ℕ)
    → length args ≤ rounds
    → all_arguments rounds (new_parser (path ∷ args)) ≡ args
unfolding new_parser
all_arguments-new_parser path args rounds h =
    all_arguments-drop rounds (record { m_arg_list = path ∷ args; m_current_arg = 1 }) (omega arith)
