-- ===== src/Shell/Alias.antt =====
-- The branch of `parseCmd` in prj_1/parser.c for alias and set, and the choice between the two.
pub mod Laws
pub mod Saved
use cs551os.Prelude.{
  ℕ, zero, suc, ◌+◌, ◌-◌, Bool, true, false, ◌||◌, List, [], ◌∷◌, ◌++◌, ◌==◌, ltb, length,
  if◌then◌else◌, Option, none, some, take, Run, done, fault, out_of_fuel, ◌>>=◌,
}
use cs551os.Lines.{Text}
use cs551os.Shell.Input.{clean_cmd}
use cs551os.Shell.Parse.{strstr, add_param, max_params, tokenise}

-- "alias " and "set ".
abbrev pub alias_text : Text
alias_text = 97 ∷ 108 ∷ 105 ∷ 97 ∷ 115 ∷ 32 ∷ []

abbrev pub set_text : Text
set_text = 115 ∷ 101 ∷ 116 ∷ 32 ∷ []

-- `ptr == cmd`
abbrev pub at_start : Option ℕ → Bool
at_start none = false
at_start (some k) = k == 0

-- `ptr` is the first "alias ", or the first "set " if there is none.
abbrev pub setting_at : Option ℕ → Option ℕ → Bool
setting_at none set_ptr = at_start set_ptr
setting_at (some k) set_ptr = k == 0

abbrev pub is_setting : Text → Bool
is_setting cmd = setting_at (strstr cmd alias_text) (strstr cmd set_text)

-- `strtok`: delimiters in front are skipped; then the token goes up to the next one.
unfoldable pub skip : (ℕ → Bool) → Text → Text
skip delim [] = []
skip delim (c ∷ s) = let rest = skip delim s in if delim c then rest else c ∷ s

unfoldable pub up_to : (ℕ → Bool) → Text → Text × Text
up_to delim [] = ([], [])
up_to delim (c ∷ s) = let rest = up_to delim s in if delim c then ([], s) else (c ∷ rest.0, rest.1)

abbrev pub token_of : (ℕ → Bool) → Text → Option (Text × Text)
token_of delim [] = none
token_of delim (c ∷ s) = some (up_to delim (c ∷ s))

unfoldable pub strtok : (ℕ → Bool) → Text → Option (Text × Text)
strtok delim s = token_of delim (skip delim s)

abbrev pub equals_sign : ℕ → Bool
equals_sign c = c == 61

abbrev pub space_or_equals : ℕ → Bool
space_or_equals c = c == 32 || c == 61

unfoldable pub has_quote : Text → Bool
has_quote [] = false
has_quote (c ∷ s) = if c == 34 then true else has_quote s

-- With a quote in it, the first byte is left out; with another one, the last byte too.
abbrev pub drop_last : Text → Text
drop_last pch = if has_quote pch then take (length pch - 1) pch else pch

abbrev pub unquote_from : Text → Text
unquote_from [] = []
unquote_from (c ∷ pch) = drop_last pch

abbrev pub unquote : Text → Text
unquote pch = if has_quote pch then unquote_from pch else pch

-- The token that `strtok` gives, if it gives one; otherwise the NULL behind the parameters.
abbrev pub with_token :
    (Text → Text → List Text → Run (List Text)) → Option (Text × Text) → List Text → Run (List Text)
with_token loop none params = if ltb (length params) max_params then done params else fault
with_token loop (some t) params = loop t.0 t.1 params

-- `while (pch != NULL)`, with the token and what is behind it; each token takes a byte at least.
unfoldable pub setting_loop : ℕ → Text → Text → List Text → Run (List Text)
setting_loop zero pch rest params = out_of_fuel
setting_loop (suc fuel) pch rest params = do
  params' ← add_param pch params
  with_token (λ t. setting_loop fuel (unquote t)) (strtok equals_sign rest) params'

unfoldable pub parse_setting : ℕ → Text → Run (List Text)
parse_setting fuel cmd = with_token (setting_loop fuel) (strtok space_or_equals cmd) []

unfoldable pub parse_cmd : Text → Run (List Text)
parse_cmd in_cmd = do
  cmd ← clean_cmd in_cmd
  if is_setting cmd then parse_setting (length cmd + 1) cmd else tokenise cmd
