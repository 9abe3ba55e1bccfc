-- ===== src/Shell/Signal.antt =====
-- The handler of the interrupt, prj_1/signal.c.
pub mod Laws
mod Tests
use cs551os.Prelude.{
  ℕ, zero, suc, Bool, ◌||◌, List, [], ◌∷◌, ◌==◌, if◌then◌else◌, Run, done, out_of_fuel, ◌>>=◌,
}
use cs551os.Lines.{Text, newline}

abbrev pub sigint : ℕ
sigint = 2

-- The shell ends, or goes on with what is left of the input.
pub data Handled : Type 0 where
  exits : Handled
  goes_on : Text → Handled

-- 'y' and 'Y'
abbrev pub is_yes : ℕ → Bool
is_yes ch = ch == 121 || ch == 89

-- `while ( (ch = getchar()) != '\n')`. At the end of the input `getchar` gives -1, every time.
unfoldable pub skip_line : ℕ → Text → Run Text
skip_line zero input = out_of_fuel
skip_line (suc fuel) [] = skip_line fuel []
skip_line (suc fuel) (ch ∷ input) =
    let rest = skip_line fuel input in if ch == newline then done input else rest

-- What follows the question; the first byte may be the end of the input, too.
unfoldable pub answer : ℕ → Text → Run Handled
answer fuel [] = do rest ← skip_line fuel []; done (goes_on rest)
answer fuel (ch ∷ input) =
    let skipped = (do rest ← skip_line fuel input; done (goes_on rest)) in
    if is_yes ch then done exits else if ch == newline then done (goes_on input) else skipped

unfoldable pub signal_handler : ℕ → ℕ → Text → Run Handled
signal_handler fuel signal input =
    let asked = answer fuel input in if signal == sigint then asked else done (goes_on input)
