-- ===== src/Shell/Execute/Tests.antt =====
-- if ls then if pwd then ls else pwd fi else pwd fi
use cs551os.Prelude.{◌≡◌, refl, [], ◌∷◌, ◌++◌, true, arith}
use cs551os.Lines.{Text}
use cs551os.Shell.Assoc.{init}
use cs551os.Shell.Valid.Grammar.{Cmd, simple, cond, words}
use cs551os.Shell.Turn.{Shell}
use cs551os.Shell.Execute.{System, execute}
use cs551os.Shell.Execute.Laws.{run_cmd, execute_lem}
use cs551os.Shell.Execute.Pipe.{pipe_words, run_pipe, to_file, execute-run_pipe}

abbrev ls : Text
ls = 108 ∷ 115 ∷ []

abbrev pwd : Text
pwd = 112 ∷ 119 ∷ 100 ∷ []

abbrev a_system : System
a_system = record { execv_ok = λ words. true; open_ok = λ file. true }

abbrev a_shell : Shell
a_shell = record { home = []; prompt = []; aliases = init (λ i. []) (λ i. []) }

abbrev nested : Cmd
nested = cond (simple ls []) (cond (simple pwd []) (simple ls []) (simple pwd [])) (simple pwd [])

execute_lem_example :
    execute a_system 3 ((ls ∷ []) ++ (words nested ++ (pwd ∷ []))) 1 a_shell
    ≡ run_cmd a_system nested a_shell
unfolding cs551os.Shell.Execute.Laws.depth
execute_lem_example =
    execute_lem a_system nested 3 (ls ∷ []) (pwd ∷ []) a_shell
      ((refl, tt), ((refl, tt), (refl, tt), (refl, tt)), (refl, tt))
      (
        (refl, (refl, refl, refl, refl)),
        (
          (refl, (refl, refl, refl, refl)),
          (refl, (refl, refl, refl, refl)),
          (refl, (refl, refl, refl, refl)),
        ),
        (refl, (refl, refl, refl, refl)),
      )
      (refl, refl) (omega arith)

-- ls | pwd | ls > out, from the second word on.
execute-run_pipe_example :
    execute a_system 3
      ((ls ∷ []) ++ pipe_words ls (pwd ∷ (ls ∷ [])) (to_file (111 ∷ 117 ∷ 116 ∷ []) []))
      1
      a_shell
    ≡ run_pipe a_system ls (pwd ∷ (ls ∷ [])) (to_file (111 ∷ 117 ∷ 116 ∷ []) []) a_shell
execute-run_pipe_example =
    execute-run_pipe a_system 3 (ls ∷ []) ls (pwd ∷ (ls ∷ [])) (to_file (111 ∷ 117 ∷ 116 ∷ []) [])
      a_shell (omega arith)
