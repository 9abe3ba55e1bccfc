-- ===== src/Shell/Input/Tests.antt =====
-- A profile, a file of aliases, and a command.
use cs551os.Prelude.{◌≡◌, refl, [], ◌∷◌, ◌++◌, done, drop, map, arith}
use cs551os.Lines.{Text, newline}
use cs551os.Lines.Laws.{Line, at_eof, at_newline}
use cs551os.Shell.Startup.{to_buffer, startup}
use cs551os.Shell.Startup.Laws.{FullLines, no_line, full_line, lines_of, startup_lem}
use cs551os.Shell.Input.{read_command, clean_cmd, tab_to_space}
use cs551os.Shell.Input.Laws.{read_command_lem, clean_cmd_lem}

-- "set", "l", "m"
abbrev set_line : Text
set_line = 115 ∷ 101 ∷ 116 ∷ []

abbrev l_line : Text
l_line = 108 ∷ []

abbrev m_line : Text
m_line = 109 ∷ []

profile-FullLines : FullLines (set_line ∷ [])
unfolding cs551os.Lines.Laws.has_newline
profile-FullLines = full_line (record { plain = refl; short = omega arith }) (omega arith) no_line

aliases-FullLines : FullLines (l_line ∷ m_line ∷ [])
unfolding cs551os.Lines.Laws.has_newline
aliases-FullLines =
    full_line (record { plain = refl; short = omega arith }) (omega arith)
      (full_line (record { plain = refl; short = omega arith }) (omega arith) no_line)

startup_lem_example :
    startup
      (λ i. to_buffer)
      9
      (lines_of (set_line ∷ []) (newline ∷ l_line))
      (lines_of (l_line ∷ m_line ∷ []) [])
    ≡ done ((set_line ∷ []) ++ drop 1 (l_line ∷ m_line ∷ []))
startup_lem_example =
    startup_lem (λ i. to_buffer) (set_line ∷ []) (l_line ∷ m_line ∷ []) (newline ∷ l_line) l_line []
      [] 9 (λ i. refl) profile-FullLines aliases-FullLines at_newline at_eof (omega arith)

read_command_lem_example : read_command (set_line ++ (newline ∷ l_line)) ≡ done (set_line, l_line)
unfolding cs551os.Lines.Laws.has_newline
read_command_lem_example = read_command_lem set_line l_line refl (omega arith)

-- "\t s\tt "
clean_cmd_lem_example :
    clean_cmd (((9 ∷ 32 ∷ []) ++ (115 ∷ 9 ∷ 116 ∷ [])) ++ (32 ∷ []))
    ≡ done (map tab_to_space (115 ∷ 9 ∷ 116 ∷ []))
unfolding cs551os.Shell.Input.Laws.all_blank
clean_cmd_lem_example =
    clean_cmd_lem (9 ∷ 32 ∷ []) (9 ∷ 116 ∷ []) (115 ∷ 9 ∷ []) (32 ∷ []) 115 116 refl refl refl refl
      refl
