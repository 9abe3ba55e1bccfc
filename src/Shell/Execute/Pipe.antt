-- ===== src/Shell/Execute/Pipe.antt =====
-- A pipeline of any length runs command by command.
use cs551os.Prelude.{
  ℕ, zero, suc, ◌+◌, ◌<◌, ◌≡◌, ◌∙◌, refl, ap, sym, true, not, ◌||◌, List, [], ◌∷◌, ◌++◌, ltb,
  length, length-append, map, Run, done, ◌>>=◌, arith,
}
use mathlib.Core.List.{append_assoc}
use cs551os.Lines.{Text}
use cs551os.Shell.Turn.{Shell, ampersand}
use cs551os.Shell.Execute.{
  System, Ran, in_pipe, execute_single, redirect, execute, redirect_text, pipe_text,
}
use cs551os.Shell.Execute.Laws.{drop_front, get_elem?_front}

-- How a pipeline ends: at the end of the list, with "&", or with its output to a file, whatever
-- follows.
pub data End : Type 0 where
  stop : End
  background : End
  to_file : Text → List Text → End

abbrev pub end_words : End → List Text
end_words stop = []
end_words background = ampersand ∷ []
end_words (to_file file rest) = redirect_text ∷ (file ∷ rest)

-- The words of a pipeline of one command and others.
abbrev pub pipe_words : Text → List Text → End → List Text
pipe_words c [] end = c ∷ end_words end
pipe_words c (d ∷ ds) end = c ∷ (pipe_text ∷ pipe_words d ds end)

-- The last command.
abbrev pub run_end : System → Text → End → Shell → Run Ran
run_end sys c stop sh = execute_single sys c sh
run_end sys c background sh = execute_single sys c sh
run_end sys c (to_file file rest) sh = redirect sys file (execute_single sys c sh) sh

-- The commands in turn: each but the last runs in a child in front of the next pipe, with the
-- variables that the shell has.
abbrev pub run_pipe : System → Text → List Text → End → Shell → Run Ran
run_pipe sys c [] end sh = run_end sys c end sh
run_pipe sys c (d ∷ ds) end sh = do
  child ← execute_single sys c sh
  r ← run_pipe sys d ds end sh
  done (record r {
    events = map in_pipe child.events ++ r.events;
    strays = not child.gone || r.strays;
  })

execute-end :
    (sys : System) (fuel : ℕ) (before : List Text) (c : Text) (end : End) (sh : Shell)
    → execute sys (suc fuel) (before ++ (c ∷ end_words end)) (length before) sh
      ≡ run_end sys c end sh
unfolding execute
execute-end sys fuel before c stop sh =
    rw (drop_front before (c ∷ []), get_elem?_front before (c ∷ []) 0 (length before) (omega arith))
      refl
execute-end sys fuel before c background sh =
    let list = c ∷ (ampersand ∷ []) in
    rw (drop_front before list, get_elem?_front before list 0 (length before) (omega arith)) refl
execute-end sys fuel before c (to_file file rest) sh =
    let list = c ∷ (redirect_text ∷ (file ∷ rest)) in
    let long : ltb 2 (suc (suc (suc (length rest)))) ≡ true = ground arith in
    rw
      (
        drop_front before list,
        long,
        get_elem?_front before list 0 (length before) (omega arith),
        get_elem?_front before list 1 (length before + 1) (omega arith),
        get_elem?_front before list 2 (length before + 2) (omega arith),
      )
      refl

pub pipe_words-long : (c : Text) (ds : List Text) (end : End) → 0 < length (pipe_words c ds end)
pipe_words-long c [] end = omega arith
pipe_words-long c (d ∷ ds) end = omega arith

-- A pipeline of any number of commands, whatever they are, which stands anywhere in the list, is
-- run by `execute` with more fuel than it has pipes: each command in front of a pipe in a child,
-- and the last one in the process itself, with its output to a file if a ">" follows.
pub execute-run_pipe :
    (sys : System) (fuel : ℕ) (before : List Text) (c : Text) (ds : List Text) (end : End)
    (sh : Shell)
    → length ds < fuel
    → execute sys fuel (before ++ pipe_words c ds end) (length before) sh ≡ run_pipe sys c ds end sh
unfolding execute
execute-run_pipe sys zero before c ds end sh lt = absurd (omega arith)
execute-run_pipe sys (suc fuel) before c [] end sh lt = execute-end sys fuel before c end sh
execute-run_pipe sys (suc fuel) before c (d ∷ ds) end sh lt =
    let more = pipe_words d ds end in
    let list = c ∷ (pipe_text ∷ more) in
    let front = before ++ (c ∷ (pipe_text ∷ [])) in
    let long : ltb 2 (suc (suc (length more))) ≡ true = ground (arith, pipe_words-long d ds end) in
    let moved : before ++ list ≡ front ++ more =
      sym (append_assoc before (c ∷ (pipe_text ∷ [])) more) in
    let further : execute sys fuel (before ++ list) (length before + 2) sh
        ≡ run_pipe sys d ds end sh =
      ap (λ l. execute sys fuel l (length before + 2) sh) moved
      ∙ ap (λ n. execute sys fuel (front ++ more) n sh)
          (omega (arith, length-append before (c ∷ (pipe_text ∷ []))))
      ∙ execute-run_pipe sys fuel front d ds end sh (omega arith) in
    rw
      (
        drop_front before list,
        long,
        get_elem?_front before list 0 (length before) (omega arith),
        get_elem?_front before list 1 (length before + 1) (omega arith),
        further,
      )
      refl
