-- ===== src/Shell/Parse/Tests.antt =====
-- "ls  -l > o", and an alias.
use cs551os.Prelude.{fault, ℕ, ◌≡◌, refl, List, [], ◌∷◌, done, arith, false}
use cs551os.Lines.{Text}
use cs551os.Shell.Parse.{clean_all, tokenise}
use cs551os.Shell.Parse.Laws.{command_of, pieces, Command, last, piped, tokenise_lem}
use cs551os.Shell.Alias.{parse_cmd}
use cs551os.Shell.Alias.Laws.{Simple, alias_command, alias_word, parse_cmd-alias}

-- "ls  -l ", and " o" behind '>'.
abbrev ls_text : Text
ls_text = 108 ∷ 115 ∷ 32 ∷ 32 ∷ 45 ∷ 108 ∷ 32 ∷ []

abbrev to_file : List (ℕ × Text)
to_file = (62, 32 ∷ 111 ∷ []) ∷ []

ls-Command : Command 100 false ls_text to_file
unfolding cs551os.Shell.Parse.begins cs551os.Shell.Parse.strstr_from
    cs551os.Shell.Parse.Squeeze.all_ordinary cs551os.Shell.Parse.Squeeze.squeeze
    cs551os.Shell.Parse.Squeeze.spaced
ls-Command =
    piped
      (record {
        plain = refl;
        some_bytes = omega arith;
        short = omega arith;
        no_keyword = record { no_if = refl; no_then = refl; no_else = refl; no_fi = refl };
      })
      (record { no_quote = refl; is_one = refl; not_end = refl })
      (last (record {
        plain = refl;
        some_bytes = omega arith;
        short = omega arith;
        no_keyword = record { no_if = refl; no_then = refl; no_else = refl; no_fi = refl };
      }))

tokenise_lem_example :
    tokenise (command_of ls_text to_file) ≡ clean_all (pieces false ls_text to_file)
unfolding pieces
tokenise_lem_example = tokenise_lem ls_text to_file ls-Command (omega arith)

-- What these are.
ls_parsed :
    tokenise (command_of ls_text to_file)
    ≡ done ((108 ∷ 115 ∷ 32 ∷ 45 ∷ 108 ∷ []) ∷ ((62 ∷ []) ∷ ((111 ∷ []) ∷ [])))
unfolding pieces clean_all cs551os.Shell.Parse.Squeeze.squeeze cs551os.Shell.Parse.Squeeze.spaced
    cs551os.Shell.Input.clean_cmd cs551os.Shell.Input.drop_trailing cs551os.Shell.Input.drop_leading
ls_parsed = tokenise_lem ls_text to_file ls-Command (omega arith)

-- alias l="ls"
parse_cmd-alias_example :
    parse_cmd (alias_command (108 ∷ []) (108 ∷ 115 ∷ []))
    ≡ done (alias_word ∷ ((108 ∷ []) ∷ ((108 ∷ 115 ∷ []) ∷ [])))
unfolding cs551os.Shell.Alias.Laws.free_of
parse_cmd-alias_example =
    let name : Simple (108 ∷ []) = record { no_tab = refl; no_quote = refl; no_equals = refl } in
    let value : Simple (108 ∷ 115 ∷ []) = record {
      no_tab = refl;
      no_quote = refl;
      no_equals = refl;
    } in
    parse_cmd-alias 108 [] (108 ∷ 115 ∷ []) name value

-- "if a then b fi": behind the last keyword there is an empty parameter.
conditional_faults :
    tokenise (105 ∷ 102 ∷ 32 ∷ 97 ∷ 32 ∷ 116 ∷ 104 ∷ 101 ∷ 110 ∷ 32 ∷ 98 ∷ 32 ∷ 102 ∷ 105 ∷ [])
    ≡ fault
unfolding cs551os.Shell.Parse.begins cs551os.Shell.Parse.strstr_from tokenise
    cs551os.Shell.Parse.parse_chars cs551os.Shell.Parse.parse_char clean_all
    cs551os.Shell.Input.clean_cmd cs551os.Shell.Input.drop_trailing cs551os.Shell.Input.drop_leading
conditional_faults = refl
