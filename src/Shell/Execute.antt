-- ===== src/Shell/Execute.antt =====
-- `execute_single` and `execute` of prj_1/exe.c.
pub mod Laws
pub mod Pipe
mod Tests
use cs551os.Prelude.{
  ℕ, zero, suc, ◌+◌, Bool, true, false, not, ◌&&◌, ◌||◌, List, [], ◌∷◌, ◌++◌, ltb, length,
  if◌then◌else◌, ℤ, pos, negsuc, Option, none, some, get_elem?, drop, map, Run, done, fault,
  out_of_fuel, access, ◌>>=◌,
}
use cs551os.Lines.{Text}
use cs551os.Shell.Assoc.{str_eq}
use cs551os.Shell.Split.{split}
use cs551os.Shell.Locate.{Locations, locate, no_locations}
use cs551os.Shell.Parse.{if_text}
use cs551os.Shell.Check.{cd_name, set_name, exit_name}
use cs551os.Shell.Turn.{Shell, set_config}

-- What the system answers: whether `execv` finds the program, and whether `open` succeeds. `pipe`
-- and `fork` do not fail.
pub record System : Type 0 where
  pub execv_ok : List Text → Bool
  pub open_ok : Text → Bool

-- What happens, in order; `in_pipe` marks what the child in front of a pipe does beside the rest.
pub data Event : Type 0 where
  changed_dir : Text → Event
  configured : Text → Event
  exited : Event
  executed : List Text → Event
  redirected : Text → Event
  open_failed : Text → Event
  in_pipe : Event → Event

-- The shell's variables behind it, what happened, whether the process is gone, replaced by a
-- program or ended, and whether a process that was forked for a test or in front of a pipe comes
-- back from the function, too.
pub record Ran : Type 0 where
  pub shell : Shell
  pub events : List Event
  pub gone : Bool
  pub strays : Bool

-- A test holds if nothing is written to its pipe: if its process is gone, and with it all that were
-- forked in it.
abbrev pub passed : Ran → Bool
passed test = test.gone && not test.strays

abbrev pub or_home : Option Text → Shell → Text
or_home none sh = sh.home
or_home (some dir) sh = dir

unfoldable pub execute_single : System → Text → Shell → Run Ran
execute_single sys cmd sh = do
  words ← split cmd
  first ← access (get_elem? words 0)
  let cd = done (record {
    shell = sh;
    events = changed_dir (or_home (get_elem? words 1) sh) ∷ [];
    gone = false;
    strays = false;
  })
  let config = (do
    key ← access (get_elem? words 1)
    sh' ← set_config sh key (get_elem? words 3)
    done (record { shell = sh'; events = configured key ∷ []; gone = false; strays = false }))
  let exit = done (record { shell = sh; events = exited ∷ []; gone = true; strays = false })
  let run = done (record {
    shell = sh;
    events = executed words ∷ [];
    gone = sys.execv_ok words;
    strays = false;
  })
  if str_eq first cd_name
      then cd
      else if str_eq first set_name
      then config
      else if str_eq first exit_name
      then exit
      else run

-- The index behind a location, which is -1 if there is none.
abbrev pub behind : ℤ → ℕ
behind (pos n) = n + 1
behind (negsuc n) = 0

abbrev pub redirect_text : Text
redirect_text = 62 ∷ []

abbrev pub pipe_text : Text
pipe_text = 124 ∷ []

-- The output of one command goes to a file.
abbrev pub redirect : System → Text → Run Ran → Shell → Run Ran
redirect sys file single sh =
    let to_file = (do r ← single; done (record r { events = redirected file ∷ r.events })) in
    if sys.open_ok file
    then to_file
    else done (record { shell = sh; events = open_failed file ∷ []; gone = false; strays = false })

-- With fuel for the operators and conditionals; a child's variables are lost.
unfoldable pub execute : System → ℕ → List Text → ℕ → Shell → Run Ran
execute sys zero list start sh = out_of_fuel
execute sys (suc fuel) list start sh =
    let single = (do cmd ← access (get_elem? list start); execute_single sys cmd sh) in
    let to_file = (do file ← access (get_elem? list (start + 2)); redirect sys file single sh) in
    let piped = (do
      child ← single
      r ← execute sys fuel list (start + 2) sh
      done (record r {
        events = map in_pipe child.events ++ r.events;
        strays = not child.gone || r.strays;
      })) in
    let l = locate (drop (start + 1) list) (start + 1) no_locations in
    let conditional = (do
      test ← execute sys fuel list (start + 1) sh
      r ← execute sys fuel list (if passed test then behind l.then_locn else behind l.else_locn) sh
      done (record r {
        events = test.events ++ r.events;
        strays = not (passed test) || r.strays;
      })) in
    let longer = (do
      first ← access (get_elem? list start)
      operator ← access (get_elem? list (start + 1))
      if str_eq operator redirect_text
          then to_file
          else if str_eq operator pipe_text
          then piped
          else if str_eq first if_text
          then conditional
          else if str_eq first cd_name
          then done (record { shell = sh; events = []; gone = false; strays = false })
          else single) in
    if ltb 2 (length (drop start list)) then longer else single
