-- ===== src/Shell/Check.antt =====
-- `validateCommand` of prj_1/valid.c.
pub mod Laws
pub mod Programs
pub mod Pipe
use cs551os.Prelude.{
  ℕ, zero, suc, ◌+◌, ◌-◌, Bool, true, false, ◌&&◌, ◌||◌, not, List, [], ◌∷◌, ◌++◌, ◌==◌, ltb,
  length, if◌then◌else◌, Option, none, some, get_elem?, set, Run, done, fault, access, ◌>>=◌,
  minus_one, eq_int,
}
use cs551os.Lines.{Text}
use cs551os.Shell.Assoc.{AssocAr, str_eq, get}
use cs551os.Shell.Alias.{strtok}
use cs551os.Shell.Parse.{if_text, then_text, else_text, fi_text, begins}
use cs551os.Shell.Valid.{validate_if_else_condition}

pub data Verdict : Type 0 where
  invalid_command null_command valid_command : Verdict

abbrev pub is_space : ℕ → Bool
is_space c = c == 32

-- `strtok(tempCmd, " ")`, or the whole string.
abbrev pub word_or_all : Option (Text × Text) → Text → Text
word_or_all none s = s
word_or_all (some t) s = t.0

abbrev pub first_word : Text → Text
first_word s = word_or_all (strtok is_space s) s

-- From the first space on.
unfoldable pub options : Text → Text
options [] = []
options (c ∷ s) = let rest = options s in if is_space c then c ∷ s else rest

-- The variables of the loop; `usr_bin` is `usrBinPath`, at first what the memory held.
pub record Checking : Type 0 where
  pub found : Bool
  pub usr_bin : Text
  pub list : List Text

-- The command with another first word, in a buffer for the length of `usrBinPath`, of the command
-- and 2 more.
abbrev pub replace_word : Text → ℕ → Text → Checking → Run Checking
replace_word first i word s =
    if ltb (length first + length (options word)) (length s.usr_bin + length word + 2)
    then done (record s { list = set s.list i (first ++ options word) })
    else fault

abbrev pub replace_alias : Option Text → ℕ → Text → Checking → Run Checking
replace_alias none i word s = done s
replace_alias (some val) i word s = replace_word val i word s

-- "set", "alias", "cd" and "exit".
abbrev pub set_name : Text
set_name = 115 ∷ 101 ∷ 116 ∷ []

abbrev pub alias_name : Text
alias_name = 97 ∷ 108 ∷ 105 ∷ 97 ∷ 115 ∷ []

abbrev pub cd_name : Text
cd_name = 99 ∷ 100 ∷ []

abbrev pub exit_name : Text
exit_name = 101 ∷ 120 ∷ 105 ∷ 116 ∷ []

-- "var", "print", "unalias", "expr" and "hist".
abbrev pub other_names : List Text
other_names =
    (118 ∷ 97 ∷ 114 ∷ [])
    ∷ (112 ∷ 114 ∷ 105 ∷ 110 ∷ 116 ∷ [])
    ∷ (101 ∷ 120 ∷ 112 ∷ 114 ∷ [])
    ∷ (104 ∷ 105 ∷ 115 ∷ 116 ∷ [])
    ∷ []

abbrev pub unalias_name : Text
unalias_name = 117 ∷ 110 ∷ 97 ∷ 108 ∷ 105 ∷ 97 ∷ 115 ∷ []

unfoldable pub one_of : List Text → Text → Bool
one_of [] cmd = false
one_of (n ∷ names) cmd = str_eq cmd n || one_of names cmd

-- The first byte, which is 0 at the end of the string.
abbrev pub first_char : Text → ℕ
first_char [] = 0
first_char (c ∷ s) = c

abbrev pub is_known : Text → Bool
is_known cmd =
    one_of
      (set_name ∷ if_text ∷ then_text ∷ else_text ∷ fi_text ∷ exit_name ∷ alias_name ∷ cd_name
        ∷ other_names)
      cmd
    || (first_char cmd == 46 || (first_char cmd == 36 || begins unalias_name cmd))

-- "/bin/" and "/usr/bin/".
abbrev pub bin_path : Text → Text
bin_path cmd = 47 ∷ 98 ∷ 105 ∷ 110 ∷ 47 ∷ cmd

abbrev pub usr_bin_path : Text → Text
usr_bin_path cmd = 47 ∷ 117 ∷ 115 ∷ 114 ∷ bin_path cmd

abbrev pub is_some : Option Text → Bool
is_some none = false
is_some (some t) = true

-- '&', '>', '|' or '='.
abbrev pub is_special : ℕ → Bool
is_special c = c == 38 || (c == 62 || (c == 124 || c == 61))

-- What a turn comes to: the result of the function, or the next index.
pub data Turn : Type 0 where
  return_verdict : Verdict → Turn
  go_on : ℕ → Turn

-- An operator, or "=", at `i` of `n`.
abbrev pub check_operator : ℕ → ℕ → Text → List Text → Run Turn
check_operator n i word list =
    let after = access (get_elem? list (i + 1)) in
    let before = access (get_elem? list (i - 1)) in
    let next = if first_char word == 62 || first_char word == 61 then i + 2 else i + 1 in
    let assigned = (do
      b ← before
      done (
          if str_eq b alias_name || str_eq b set_name
          then return_verdict invalid_command
          else go_on next)) in
    let inside = (do
      a ← after
      if is_special (first_char a)
          then done (return_verdict invalid_command)
          else (if first_char word == 61 then assigned else done (go_on next))) in
    if i + 1 == n || i == 0 then done (return_verdict invalid_command) else inside

-- A word that is no command.
abbrev pub check_special : ℕ → ℕ → Text → Checking → Run (Turn × Checking)
check_special n i word s =
    let operator = (do t ← check_operator n i word s.list; done (t, record s { found = true })) in
    let background = done (
      if i + 1 == n then go_on (i + 1) else return_verdict invalid_command,
      record s { found = true },
    ) in
    if first_char word == 62 || (first_char word == 124 || str_eq word (61 ∷ []))
    then operator
    else if first_char word == 38
    then background
    else done (go_on (i + 1), s)

module _ (access_ok : Text → Bool) (aliases : AssocAr) where
  -- A command that exists, with the path put in front of it.
  abbrev pub check_found : ℕ → Text → Text → Checking → Run (Turn × Checking)
  check_found i cmd word s =
      let path = if access_ok (bin_path cmd) then bin_path cmd else usr_bin_path cmd in
      let in_path = (do s' ← replace_word path i word s; done (go_on (i + 1), s')) in
      let last =
        if access_ok (bin_path cmd) || access_ok (usr_bin_path cmd)
        then in_path
        else done (go_on (i + 1), s) in
      let stop = done (return_verdict valid_command, s) in
      if str_eq cmd alias_name || str_eq cmd set_name
      then if is_some (get_elem? s.list (i + 1)) && is_some (get_elem? s.list (i + 2))
        then stop
        else last
      else if str_eq cmd cd_name
      then stop
      else last

  abbrev pub check_command : ℕ → ℕ → Text → Text → Checking → Run (Turn × Checking)
  check_command n i cmd word s =
      let s' = record s { usr_bin = usr_bin_path cmd } in
      if is_known cmd || (access_ok (bin_path cmd) || access_ok (usr_bin_path cmd))
      then check_found i cmd word (record s' { found = true })
      else check_special n i word (record s' { found = false })

  abbrev pub check_if : ℕ → Checking → Run (Turn × Checking)
  check_if i s = do
    v ← validate_if_else_condition s.list
    done (if eq_int v minus_one then return_verdict invalid_command else go_on (i + 1), s)

  -- One turn of the loop.
  unfoldable pub check_turn : ℕ → ℕ → Checking → Run (Turn × Checking)
  check_turn n i s = do
    word ← access (get_elem? s.list i)
    s' ← replace_alias (get aliases (first_word word)) i word s
    word' ← access (get_elem? s'.list i)
    if str_eq (first_word word') if_text && i == 0
        then check_if i s'
        else check_command n i (first_word word') word' s'

  abbrev pub after_turn :
      (ℕ → Checking → Run (Verdict × List Text)) → Turn × Checking → Run (Verdict × List Text)
  after_turn loop (return_verdict v, s) = done (v, s.list)
  after_turn loop (go_on i, s) = loop i s

  -- The loop over `n` words, which takes a turn for each at most.
  unfoldable pub check_loop : ℕ → ℕ → ℕ → Checking → Run (Verdict × List Text)
  check_loop zero n i s = done (if s.found then valid_command else invalid_command, s.list)
  check_loop (suc turns) n i s =
      let end = done (if s.found then valid_command else invalid_command, s.list) in
      let body = (do t ← check_turn n i s; after_turn (check_loop turns n) t) in
      if ltb i n then body else end

  -- The commands, with the memory of `usrBinPath`.
  unfoldable pub validate_command : Text → List Text → Run (Verdict × List Text)
  validate_command usr_bin list =
      let start : Checking = record { found = false; usr_bin = usr_bin; list = list } in
      if length list == 0
      then done (null_command, list)
      else check_loop (length list) (length list) 0 start
