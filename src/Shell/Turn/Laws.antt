-- ===== src/Shell/Turn/Laws.antt =====
-- What the shell does with an alias command.
use cs551os.Prelude.{ℕ, ◌<◌, ◌≡◌, refl, Bool, [], ◌∷◌, length, none, done, Gives, inl}
use cs551os.Lines.{Text}
use cs551os.Shell.Assoc.{AssocAr, add, get, max_ov_tbl_size}
use cs551os.Shell.Assoc.Laws.{Ok}
use cs551os.Shell.Assoc.Add.{Added}
use cs551os.Shell.Assoc.Refine.{add_iff, add-Added}
use cs551os.Shell.Alias.Laws.{Simple, alias_command, parse_cmd-alias}
use cs551os.Shell.Check.{validate_command, valid_command, alias_name, check_loop, check_turn}
use cs551os.Shell.Turn.{Shell, no_action, set_alias, dispatch, turn}

pub validate_command-alias :
    (access_ok : Text → Bool) (aliases : AssocAr) (usr_bin name value : Text)
    → get aliases alias_name ≡ none
    → validate_command access_ok aliases usr_bin (alias_name ∷ (name ∷ (value ∷ [])))
      ≡ done (valid_command, alias_name ∷ (name ∷ (value ∷ [])))
unfolding validate_command check_loop check_turn cs551os.Shell.Alias.strtok cs551os.Shell.Alias.skip
    cs551os.Shell.Alias.up_to cs551os.Shell.Check.one_of
validate_command-alias access_ok aliases usr_bin name value absent = rw absent refl

pub dispatch-alias :
    (sh : Shell) (name value : Text) (table : AssocAr)
    → add sh.aliases name value ≡ done table
    → dispatch sh (alias_name ∷ (name ∷ (value ∷ [])))
      ≡ done (record sh { aliases = table }, no_action)
unfolding dispatch set_alias
dispatch-alias sh name value table added = rw added refl

-- An alias command with a simple name and value of less than 256 bytes, where "alias" itself is no
-- alias and the table is well-formed with room in its overflow table, is parsed, valid and
-- executed: the table then has the value for the name and every other alias as before, no process
-- is started, and the home and the prompt are the same.
pub turn-alias :
    (access_ok : Text → Bool) (usr_bin : Text) (sh : Shell) (c : ℕ) (name value : Text)
    → Simple (c ∷ name)
    → Simple value
    → Ok sh.aliases
    → get sh.aliases alias_name ≡ none
    → length (c ∷ name) < 256
    → length value < 256
    → sh.aliases.ov_tbl_size < max_ov_tbl_size
    → Gives (turn access_ok usr_bin sh (alias_command (c ∷ name) value)) (λ r.
      Added (c ∷ name) value sh.aliases r.0.aliases
      × (r.1 ≡ no_action)
      × (r.0.home ≡ sh.home)
      × (r.0.prompt ≡ sh.prompt))
unfolding turn
turn-alias access_ok usr_bin sh c name value n v ok absent short short' room =
    let (table, added) = (add_iff sh.aliases (c ∷ name) value ok short short').1 (inl room) in
    (
      (record sh { aliases = table }, no_action),
      rw
          (
            parse_cmd-alias c name value n v,
            validate_command-alias access_ok sh.aliases usr_bin (c ∷ name) value absent,
          )
          (dispatch-alias sh (c ∷ name) value table added),
      (add-Added sh.aliases table (c ∷ name) value ok added, refl, refl, refl),
    )
