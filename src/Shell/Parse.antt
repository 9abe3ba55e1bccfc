-- ===== src/Shell/Parse.antt =====
-- `parseCmd` of prj_1/parser.c.
pub mod Search
pub mod Squeeze
pub mod Laws
mod Tests
use cs551os.Prelude.{
  ℕ, zero, suc, ◌+◌, Bool, true, false, ◌&&◌, ◌||◌, not, List, [], ◌∷◌, ◌++◌, ◌==◌, ltb, length,
  if◌then◌else◌, Option, none, some, take, drop, Run, done, fault, out_of_fuel, ◌>>=◌,
}
use cs551os.Lines.{Text}
use cs551os.Shell.Input.{clean_cmd}

-- The string `p` begins with `needle`.
unfoldable pub begins : Text → Text → Bool
begins [] p = true
begins (n ∷ needle) [] = false
begins (n ∷ needle) (c ∷ p) = n == c && begins needle p

-- `strstr`, as the offset from the start, where `p` begins at `i`.
unfoldable pub strstr_from : ℕ → Text → Text → Option ℕ
strstr_from i [] needle = none
strstr_from i (c ∷ p) needle =
    let rest = strstr_from (i + 1) p needle in if begins needle (c ∷ p) then some i else rest

abbrev pub strstr : Text → Text → Option ℕ
strstr p needle = strstr_from 0 p needle

-- "if", "then", "else" and "fi", and what is searched for them.
abbrev pub if_text : Text
if_text = 105 ∷ 102 ∷ []

abbrev pub then_text : Text
then_text = 116 ∷ 104 ∷ 101 ∷ 110 ∷ []

abbrev pub else_text : Text
else_text = 101 ∷ 108 ∷ 115 ∷ 101 ∷ []

abbrev pub fi_text : Text
fi_text = 102 ∷ 105 ∷ []

-- `cmd_list` has 18 entries.
abbrev pub max_params : ℕ
max_params = 18

abbrev pub add_param : Text → List Text → Run (List Text)
add_param t params = if ltb (length params) max_params then done (params ++ (t ∷ [])) else fault

-- The variables of the loop: `param` has the bytes from `param` to `mem`, in a buffer of `size`
-- bytes, and `ploc` is the offset of `pLoc` in it.
pub record Tokens : Type 0 where
  pub params : List Text
  pub param : Text
  pub size : ℕ
  pub char_count : ℕ
  pub space_encountered : Bool
  pub q_st : Bool
  pub ploc : Option ℕ
  pub temp : Text

abbrev pub first_tokens : Tokens
first_tokens = record {
  params = [];
  param = [];
  size = 100;
  char_count = 0;
  space_encountered = false;
  q_st = false;
  ploc = none;
  temp = [];
}

-- PARAM_SIZE
abbrev pub param_size : ℕ
param_size = 30

-- A keyword was found by the turn before: what is in front of it is a parameter, and the keyword.
abbrev pub split_at : Option ℕ → Tokens → Run Tokens
split_at none s = done s
split_at (some k) s = do
  front ← if k == 0 then done s.params else add_param (take k s.param) s.params
  params ← add_param s.temp front
  done (record s { params = params; param = []; size = param_size; ploc = none })

-- `char_count++; *mem++ = c; *mem = '\0'`
abbrev pub put_char : ℕ → Tokens → Run Tokens
put_char c s =
    if ltb (length s.param + 1) s.size
    then done (record s { param = s.param ++ (c ∷ []); char_count = s.char_count + 1 })
    else fault

-- A quote; behind an opening one there is no terminator.
abbrev pub quote_char : Tokens → Run Tokens
quote_char s = do
  let used = if s.q_st then length s.param + 1 else length s.param
  let s' = record s {
    param = s.param ++ (34 ∷ []);
    char_count = s.char_count + 1;
    q_st = not s.q_st;
    space_encountered = if s.q_st then false else s.space_encountered;
  }
  if ltb used s.size then done s' else fault

abbrev pub is_operator : ℕ → Bool
is_operator c = c == 38 || (c == 62 || (c == 124 || c == 0))

-- An operator, or the end: the parameter ends.
abbrev pub end_param : ℕ → Tokens → Run Tokens
end_param c s = do
  params ← add_param s.param s.params
  let operator = (do
    params' ← add_param (c ∷ []) params
    done (record s { params = params'; param = []; size = param_size; char_count = 0 }))
  if c == 0 then done (record s { params = params }) else operator

abbrev pub found : Option ℕ → Text → Tokens → Tokens → Tokens
found none word s next = next
found (some k) word s next = record s { ploc = some k; temp = word }

-- The search for a keyword in `param`.
abbrev pub find_keyword : Tokens → Tokens
find_keyword s = found (strstr s.param (if_text ++ (32 ∷ []))) if_text s (
    found (strstr s.param (32 ∷ (then_text ++ (32 ∷ [])))) then_text s (
      found (strstr s.param (32 ∷ (else_text ++ (32 ∷ [])))) else_text s
        (found (strstr s.param (32 ∷ fi_text)) fi_text s (record s { ploc = none }))))

-- An ordinary byte; a second space is skipped.
abbrev pub plain_char : ℕ → Tokens → Run Tokens
plain_char c s = do
  let kept = (do s' ← put_char c (record s { space_encountered = c == 32 }); done (find_keyword s'))
  if c == 32 && s.space_encountered then done s else kept

abbrev pub take_char : ℕ → Tokens → Run Tokens
take_char c t =
    if c == 34
    then quote_char t
    else if t.q_st
    then put_char c t
    else if is_operator c && not (t.char_count == 0)
    then end_param c t
    else plain_char c t

-- One turn of the loop; the last one is for the terminator.
unfoldable pub parse_char : ℕ → Tokens → Run Tokens
parse_char c s = do t ← split_at s.ploc s; take_char c t

unfoldable pub parse_chars : Text → Tokens → Run Tokens
parse_chars [] s = done s
parse_chars (c ∷ cmd) s = do t ← parse_char c s; parse_chars cmd t

-- The last loop reads `cmd_params` up to a NULL.
unfoldable pub clean_all : List Text → Run (List Text)
clean_all [] = done []
clean_all (p ∷ ps) = do q ← clean_cmd p; qs ← clean_all ps; done (q ∷ qs)

abbrev pub clean_params : List Text → Run (List Text)
clean_params params = if ltb (length params) max_params then clean_all params else fault

-- The parameters of a cleaned command that is no alias or set.
unfoldable pub tokenise : Text → Run (List Text)
tokenise cmd = do s ← parse_chars (cmd ++ (0 ∷ [])) first_tokens; clean_params s.params
