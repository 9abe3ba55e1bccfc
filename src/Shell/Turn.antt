-- ===== src/Shell/Turn.antt =====
-- A turn of the loop of `main` in prj_1/mrpsh.c for a line, up to the processes that it starts,
-- with `set_alias` and `set_config` of exe.c.
pub mod Laws
pub mod Pipe
mod Tests
use cs551os.Prelude.{
  ℕ, ◌+◌, ◌-◌, Bool, true, false, ◌&&◌, ◌||◌, List, [], ◌∷◌, ◌++◌, ◌==◌, length, if◌then◌else◌,
  Option, none, some, get_elem?, Run, done, fault, access, ◌>>=◌,
}
use cs551os.Lines.{Text}
use cs551os.Shell.Assoc.{AssocAr, str_eq, add}
use cs551os.Shell.Parse.{begins}
use cs551os.Shell.Alias.{parse_cmd}
use cs551os.Shell.Check.{
  Verdict, valid_command, null_command, invalid_command, validate_command, alias_name, set_name,
  cd_name, exit_name,
}

-- `home`, `PROMPT` and `alias_s`.
pub record Shell : Type 0 where
  pub home : Text
  pub prompt : Text
  pub aliases : AssocAr

unfoldable pub set_alias : Shell → Text → Text → Run Shell
set_alias sh key val = do table ← add sh.aliases key val; done (record sh { aliases = table })

-- "home" and "prompt".
abbrev pub home_name : Text
home_name = 104 ∷ 111 ∷ 109 ∷ 101 ∷ []

abbrev pub prompt_name : Text
prompt_name = 112 ∷ 114 ∷ 111 ∷ 109 ∷ 112 ∷ 116 ∷ []

-- With the value as it stands in the list: `strdup` reads through a NULL.
unfoldable pub set_config : Shell → Text → Option Text → Run Shell
set_config sh key val =
    let home' = (do v ← access val; done (record sh { home = v })) in
    let prompt' = (do v ← access val; done (record sh { prompt = v })) in
    if str_eq key home_name then home' else if str_eq key prompt_name then prompt' else done sh

-- What is left to do for the line: nothing, `execute` in the shell, or in a child, for which the
-- shell waits unless the command ends with "&".
pub data Action : Type 0 where
  no_action : Action
  in_shell : List Text → Action
  in_child : Bool → List Text → Action

-- "cd " and "&".
abbrev pub runs_here : Text → Bool
runs_here first =
    begins (99 ∷ 100 ∷ 32 ∷ []) first || (str_eq first cd_name || str_eq first exit_name)

abbrev pub ampersand : Text
ampersand = 38 ∷ []

-- The valid command.
unfoldable pub dispatch : Shell → List Text → Run (Shell × Action)
dispatch sh list = do
  first ← access (get_elem? list 0)
  last ← access (get_elem? list (length list - 1))
  let alias = (do
    key ← access (get_elem? list 1)
    val ← access (get_elem? list 2)
    sh' ← set_alias sh key val
    done (sh', no_action))
  let config = (do
    key ← access (get_elem? list 1)
    sh' ← set_config sh key (get_elem? list 2)
    done (sh', no_action))
  let run =
      done (sh, if runs_here first then in_shell list else in_child (str_eq last ampersand) list)
  if str_eq first alias_name then alias else if str_eq first set_name then config else run

abbrev pub if_valid : Shell → Verdict × List Text → Run (Shell × Action)
if_valid sh (invalid_command, list) = done (sh, no_action)
if_valid sh (null_command, list) = done (sh, no_action)
if_valid sh (valid_command, list) = dispatch sh list

-- A line, with the paths that exist and the memory of `usrBinPath`.
unfoldable pub turn : (Text → Bool) → Text → Shell → Text → Run (Shell × Action)
turn access_ok usr_bin sh line = do
  params ← parse_cmd line
  v ← validate_command access_ok sh.aliases usr_bin params
  if_valid sh v
