-- ===== src/Shell/Signal/Tests.antt =====
-- "no", and then "ls".
use cs551os.Prelude.{◌≡◌, refl, [], ◌∷◌, ◌++◌, done, out_of_fuel, arith}
use cs551os.Shell.Signal.{goes_on, signal_handler, sigint}
use cs551os.Shell.Signal.Laws.{signal_handler_lem}

signal_handler_lem_example :
    (signal_handler 9 sigint ((110 ∷ 111 ∷ []) ++ (10 ∷ (108 ∷ 115 ∷ [])))
      ≡ done (goes_on (108 ∷ 115 ∷ [])))
    × (signal_handler 9 sigint (110 ∷ 111 ∷ []) ≡ out_of_fuel)
unfolding cs551os.Lines.Laws.has_newline
signal_handler_lem_example =
    signal_handler_lem 9 (110 ∷ 111 ∷ []) (108 ∷ 115 ∷ []) refl (omega arith)
