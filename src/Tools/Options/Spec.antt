-- ===== src/Tools/Options/Spec.antt =====
-- What the options and the file names of a command line say, in whatever order they come.
use cs551os.Prelude.{ℕ, Bool, true, false, ◌&&◌, ◌||◌, List, [], ◌∷◌, if◌then◌else◌}
use cs551os.Tools.Options.{String, strchr, is_option, fits, default_fname}

unfoldable pub any : (String → Bool) → List String → Bool
any test [] = false
any test (p ∷ ps) = test p || any test ps

unfoldable pub all_fit : List String → Bool
all_fit [] = true
all_fit (p ∷ ps) = fits p && all_fit ps

-- There is an option with the letter.
abbrev pub given : ℕ → List String → Bool
given c = any (λ p. is_option p && strchr p c)

-- The arguments that are no options.
unfoldable pub files : List String → List String
files [] = []
files (p ∷ ps) = let rest = files ps in if is_option p then rest else p ∷ rest

abbrev pub first_or_default : List String → String
first_or_default [] = default_fname
first_or_default (p ∷ ps) = p
