-- ===== src/Shell/Turn/Tests.antt =====
-- alias l="ls", in a shell without aliases.
use cs551os.Prelude.{◌≡◌, refl, [], ◌∷◌, ◌++◌, true, false, Gives, arith, Bool, done}
use cs551os.Lines.{Text}
use cs551os.Shell.Assoc.{init, get, str_eq}
use cs551os.Shell.Assoc.Add.{Added}
use cs551os.Shell.Assoc.Laws.{init-Ok}
use cs551os.Shell.Alias.Laws.{Simple, alias_command}
use cs551os.Shell.Check.{validate_command, valid_command, bin_path}
use cs551os.Shell.Check.Laws.{Program}
use cs551os.Shell.Turn.{Shell, turn, no_action, in_child}
use cs551os.Shell.Turn.Laws.{turn-alias}
use cs551os.Shell.Alias.{parse_cmd}
use cs551os.Shell.Check.Programs.{located, PipeFree}
use cs551os.Shell.Check.Pipe.{validate_command-pipe}
use cs551os.Shell.Execute.{System, execute}
use cs551os.Shell.Execute.Pipe.{stop, pipe_words, run_pipe}
use cs551os.Shell.Turn.Pipe.{turn-pipe}

abbrev a_shell : Shell
a_shell = record { home = []; prompt = 58 ∷ []; aliases = init (λ i. []) (λ i. []) }

abbrev no_file : Text → Bool
no_file path = false

turn-alias_example :
    Gives (turn no_file [] a_shell (alias_command (108 ∷ []) (108 ∷ 115 ∷ []))) (λ r.
      Added (108 ∷ []) (108 ∷ 115 ∷ []) a_shell.aliases r.0.aliases
      × (r.1 ≡ no_action)
      × (r.0.home ≡ a_shell.home)
      × (r.0.prompt ≡ a_shell.prompt))
unfolding cs551os.Shell.Alias.Laws.free_of get init
turn-alias_example =
    let name : Simple (108 ∷ []) = record { no_tab = refl; no_quote = refl; no_equals = refl } in
    let value : Simple (108 ∷ 115 ∷ []) = record {
      no_tab = refl;
      no_quote = refl;
      no_equals = refl;
    } in
    turn-alias no_file [] a_shell 108 [] (108 ∷ 115 ∷ []) name value (init-Ok (λ i. []) (λ i. []))
      refl (omega arith) (omega arith) (omega arith)

-- "ls -l", where there is a /bin/ls.
abbrev only_ls : Text → Bool
only_ls path = str_eq path (bin_path (108 ∷ 115 ∷ []))

abbrev ls_word : Text
ls_word = 108 ∷ 115 ∷ 32 ∷ 45 ∷ 108 ∷ []

ls-Program : Program a_shell.aliases ls_word
unfolding cs551os.Shell.Alias.strtok cs551os.Shell.Alias.skip cs551os.Shell.Alias.up_to
    cs551os.Shell.Check.one_of cs551os.Shell.Parse.begins get init
ls-Program = record {
  no_alias = refl;
  not_if = refl;
  not_known = refl;
  not_redirect = refl;
  not_pipe = refl;
  not_equals = refl;
  not_background = refl;
  not_alias_name = refl;
  not_set = refl;
  not_cd = refl;
}

-- "xy", "|", "ls": the missing program is not noticed.
missing_accepted :
    validate_command only_ls a_shell.aliases []
      ((120 ∷ 121 ∷ []) ∷ ((124 ∷ []) ∷ ((108 ∷ 115 ∷ []) ∷ [])))
    ≡ done (valid_command, (120 ∷ 121 ∷ []) ∷ ((124 ∷ []) ∷ (bin_path (108 ∷ 115 ∷ []) ∷ [])))
unfolding validate_command cs551os.Shell.Check.check_loop cs551os.Shell.Check.check_turn
    cs551os.Shell.Check.options cs551os.Shell.Alias.strtok cs551os.Shell.Alias.skip
    cs551os.Shell.Alias.up_to cs551os.Shell.Check.one_of cs551os.Shell.Parse.begins get init
missing_accepted = refl

-- ls -l|ls -l
abbrev ls_line : Text
ls_line = ls_word ++ (124 ∷ ls_word)

ls_line-parsed : parse_cmd ls_line ≡ done (pipe_words ls_word (ls_word ∷ []) stop)
unfolding parse_cmd cs551os.Shell.Input.clean_cmd cs551os.Shell.Input.drop_trailing
    cs551os.Shell.Parse.strstr_from cs551os.Shell.Input.drop_leading cs551os.Shell.Parse.begins
    cs551os.Shell.Parse.tokenise cs551os.Shell.Parse.parse_chars cs551os.Shell.Parse.parse_char
    cs551os.Shell.Parse.clean_all
ls_line-parsed = refl

no_pipe_program : PipeFree only_ls a_shell.aliases
unfolding get init
no_pipe_program = record { no_alias = refl; not_bin = refl; not_usr = refl }

abbrev a_system : System
a_system = record { execv_ok = λ words. true; open_ok = λ file. true }

turn-pipe_example :
    let list = pipe_words (located only_ls ls_word) (located only_ls ls_word ∷ []) stop in
    (turn only_ls [] a_shell ls_line ≡ done (a_shell, in_child false list))
    × (execute a_system 2 list 0 a_shell
        ≡ run_pipe a_system (located only_ls ls_word) (located only_ls ls_word ∷ []) stop a_shell)
unfolding cs551os.Shell.Alias.strtok cs551os.Shell.Alias.skip cs551os.Shell.Alias.up_to
turn-pipe_example =
    turn-pipe only_ls [] a_shell ls_line ls_word (ls_word ∷ []) a_system 2 ls_line-parsed
      no_pipe_program (ls-Program, refl, ls-Program) refl refl (omega arith)

validate_command-pipe_example :
    validate_command only_ls a_shell.aliases [] (pipe_words ls_word (ls_word ∷ []) stop)
    ≡ done (valid_command, pipe_words (located only_ls ls_word) (located only_ls ls_word ∷ []) stop)
unfolding cs551os.Shell.Alias.strtok cs551os.Shell.Alias.skip cs551os.Shell.Alias.up_to
validate_command-pipe_example =
    validate_command-pipe only_ls a_shell.aliases [] ls_word (ls_word ∷ []) no_pipe_program
      (ls-Program, refl, ls-Program)
