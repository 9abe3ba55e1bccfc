-- ===== src/Shell/Turn/Pipe.antt =====
-- What the shell does with a pipeline, from the line to the programs.
use cs551os.Prelude.{
  ℕ, suc, ◌-◌, ◌<◌, ◌≡◌, ◌∙◌, refl, ap, true, false, Bool, List, [], ◌∷◌, map, length, length-map,
  some, get_elem?, done, Bool-cases, inl, inr, arith,
}
use cs551os.Lines.{Text}
use cs551os.Shell.Assoc.{str_eq}
use cs551os.Shell.Alias.{parse_cmd}
use cs551os.Shell.Check.{first_word, bin_path, usr_bin_path, alias_name, set_name}
use cs551os.Shell.Check.Programs.{exists, located, PipeFree, Programs}
use cs551os.Shell.Check.Pipe.{last_of, validate_command-pipe}
use cs551os.Shell.Turn.{Shell, in_child, runs_here, ampersand, dispatch, turn}
use cs551os.Shell.Execute.{System, execute}
use cs551os.Shell.Execute.Pipe.{stop, pipe_words, pipe_words-long, run_pipe, execute-run_pipe}

last-pipe_words :
    (c : Text) (ds : List Text)
    → get_elem? (pipe_words c ds stop) (length (pipe_words c ds stop) - 1) ≡ some (last_of c ds)
last-pipe_words c [] = refl
last-pipe_words c (d ∷ ds) =
    let k = length (pipe_words d ds stop) in
    let up : suc (suc k) - 1 ≡ suc (suc (k - 1)) = omega (arith, pipe_words-long d ds stop) in
    ap (get_elem? (pipe_words c (d ∷ ds) stop)) up ∙ last-pipe_words d ds

last_of-map :
    (f : Text → Text) (c : Text) (ds : List Text) → last_of (f c) (map f ds) ≡ f (last_of c ds)
last_of-map f c [] = refl
last_of-map f c (d ∷ ds) = last_of-map f d ds

module _ (access_ok : Text → Bool) where
  -- A path is no word of the shell.
  abbrev IsPath : Text → Type 0
  IsPath p =
      (str_eq p alias_name ≡ false)
      × (str_eq p set_name ≡ false)
      × (runs_here p ≡ false)
      × (str_eq p ampersand ≡ false)

  located-IsPath : (c : Text) → exists access_ok c ≡ true → IsPath (located access_ok c)
  unfolding cs551os.Shell.Parse.begins
  located-IsPath c found = elim (Bool-cases (access_ok (bin_path (first_word c)))) [
    | inl in_bin ↦ rw in_bin (refl, refl, refl, refl)
    | inr not_bin ↦ elim (Bool-cases (access_ok (usr_bin_path (first_word c)))) [
      | inl in_usr ↦ rw (not_bin, in_usr) (refl, refl, refl, refl)
      | inr not_usr ↦ absurd (ground arith)
    ]
  ]

pipe_words-first : (c : Text) (ds : List Text) → get_elem? (pipe_words c ds stop) 0 ≡ some c
pipe_words-first c [] = refl
pipe_words-first c (d ∷ ds) = refl

dispatch-pipe :
    (access_ok : Text → Bool) (sh : Shell) (c : Text) (ds : List Text)
    → exists access_ok c ≡ true
    → exists access_ok (last_of c ds) ≡ true
    → let list = pipe_words (located access_ok c) (map (located access_ok) ds) stop in
      dispatch sh list ≡ done (sh, in_child false list)
unfolding dispatch
dispatch-pipe access_ok sh c ds first last =
    let c' = located access_ok c in
    let ds' = map (located access_ok) ds in
    let (no_alias, no_set, not_here, no_amp) = located-IsPath access_ok c first in
    let (no_alias', no_set', not_here', amp) = located-IsPath access_ok (last_of c ds) last in
    let at_end : get_elem? (pipe_words c' ds' stop) (length (pipe_words c' ds' stop) - 1)
        ≡ some (located access_ok (last_of c ds)) =
      last-pipe_words c' ds' ∙ ap some (last_of-map (located access_ok) c ds) in
    rw (pipe_words-first c' ds', at_end, no_alias, no_set, not_here, amp) refl

-- A line that is parsed to a pipeline of programs, where "|" is no alias and no program, and the
-- first and the last program exist: the shell starts one child for it and waits; and with more fuel
-- than there are pipes, `execute` runs there each command with its program's path, those in front
-- of a pipe in children of their own, whatever the system answers.
pub turn-pipe :
    (access_ok : Text → Bool) (usr_bin : Text) (sh : Shell) (line c : Text) (ds : List Text)
    (sys : System) (fuel : ℕ)
    → parse_cmd line ≡ done (pipe_words c ds stop)
    → PipeFree access_ok sh.aliases
    → Programs access_ok sh.aliases c ds
    → exists access_ok c ≡ true
    → exists access_ok (last_of c ds) ≡ true
    → length ds < fuel
    → let list = pipe_words (located access_ok c) (map (located access_ok) ds) stop in
      (turn access_ok usr_bin sh line ≡ done (sh, in_child false list))
      × (execute sys fuel list 0 sh
          ≡ run_pipe sys (located access_ok c) (map (located access_ok) ds) stop sh)
unfolding turn
turn-pipe access_ok usr_bin sh line c ds sys fuel parsed free programs first last lt = (
  rw (parsed, validate_command-pipe access_ok sh.aliases usr_bin c ds free programs, last)
      (dispatch-pipe access_ok sh c ds first last),
  execute-run_pipe sys fuel [] (located access_ok c) (map (located access_ok) ds) stop sh
      (omega (arith, length-map ds (located access_ok))),
)
