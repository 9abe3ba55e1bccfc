-- ===== src/Shell/Session.antt =====
-- From one session to the next: `bye` of prj_1/mrpsh.c, and the turns of the loop of `main` before
-- the prompt.
mod Entries
pub mod Restart
mod Tests
use cs551os.Prelude.{ℕ, ◌+◌, Bool, List, [], ◌∷◌, ◌++◌, Run, done, ◌>>=◌}
use cs551os.Lines.{Text}
use cs551os.Shell.Assoc.{AssocAr, write_alias}
use cs551os.Shell.Startup.{Pointer, startup}
use cs551os.Shell.Turn.{Shell, Action, turn}

abbrev pub joined : List Text → Text
joined [] = []
joined (l ∷ ls) = l ++ joined ls

-- What `bye` leaves in the file of aliases, which it truncates first.
unfoldable pub bye : AssocAr → Text
bye ar = joined (write_alias ar)

-- The lines in turn, from the `i`-th on, with what each leaves to do; `usr_bin i` is the memory
-- that the `i`-th turn finds.
unfoldable pub run_lines :
    (Text → Bool) → (ℕ → Text) → ℕ → Shell → List Text → Run (Shell × List Action)
run_lines access_ok usr_bin i sh [] = done (sh, [])
run_lines access_ok usr_bin i sh (l ∷ ls) = do
  (sh₁, action) ← turn access_ok (usr_bin i) sh l
  (sh₂, actions) ← run_lines access_ok usr_bin (i + 1) sh₁ ls
  done (sh₂, action ∷ actions)

-- The shell at its first prompt; `line_at i` is the inner `line` of the `i`-th turn.
unfoldable pub start_shell :
    (ℕ → Pointer) → (Text → Bool) → (ℕ → Text) → ℕ → Text → Text → Shell → Run (Shell × List Action)
start_shell line_at access_ok usr_bin fuel profile aliases sh = do
  lines ← startup line_at fuel profile aliases
  run_lines access_ok usr_bin 0 sh lines
