-- ===== src/System/Tests.antt =====
-- The small parts by evaluation.
use iacore.Base.{arith, ◌≡◌, ◌+◌, ◌++◌, if◌then◌else◌, refl, codes, [], ◌∷◌}
use iacore.System.Cli.{new_parser, remaining, next, argument_at}
use iacore.System.Cli.Order.{all_arguments}
use iacore.System.Counts.{is_above, initialize, terminate, is_initialized}
use iacore.System.Counts.Balance
use iacore.System.Counts.Balance.{initializations, terminations, Run-logger}
use iacore.System.DynamicLib.{full_path}

all_arguments-two :
    all_arguments 5 (new_parser (codes "p" ∷ codes "a" ∷ codes "b" ∷ []))
    ≡ codes "a" ∷ codes "b" ∷ []
unfolding all_arguments new_parser remaining next argument_at
all_arguments-two = refl

full_path-plain : full_path (codes "/lib") (codes "m") ≡ codes "/lib/m.so"
unfolding full_path
full_path-plain = refl

full_path-dotted : full_path (codes "a.b") (codes "m.so.1") ≡ codes "a.b/m.so.1"
unfolding full_path
full_path-dotted = refl

Run-twice :
    Balance.Run 1
      (terminate (initialize 0).0).0
      ((terminate (initialize 0).0).1 ++ ((initialize 0).1 ++ []))
unfolding initialize is_initialized is_above
Run-twice = Balance.terminates (Balance.initializes Balance.start) refl

Run-logger_example :
    initializations ((terminate (initialize 0).0).1 ++ ((initialize 0).1 ++ []))
    ≡ (if is_initialized (terminate (initialize 0).0).0 then 1 else 0)
      + terminations ((terminate (initialize 0).0).1 ++ ((initialize 0).1 ++ []))
Run-logger_example = Run-logger Run-twice (omega arith)
