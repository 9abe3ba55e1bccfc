-- ===== src/Shell/Valid.antt =====
-- The check of conditionals, `validateIfElseCondition` of prj_1/valid.c.
pub mod Grammar
use cs551os.Prelude.{
  ℕ, zero, suc, ◌+◌, Bool, true, false, Option, none, some, List, [], ◌∷◌, ltb, length,
  if◌then◌else◌, ℤ, pos, minus_one, Run, done, fault, ◌>>=◌,
}
use cs551os.Shell.Assoc.{String, str_eq}

-- The words that the check knows.
pub data Word : Type 0 where
  if_word then_word else_word fi_word command : Word

-- "if", "then", "else" and "fi".
abbrev pub str_if : String
str_if = 105 ∷ 102 ∷ []

abbrev pub str_then : String
str_then = 116 ∷ 104 ∷ 101 ∷ 110 ∷ []

abbrev pub str_else : String
str_else = 101 ∷ 108 ∷ 115 ∷ 101 ∷ []

abbrev pub str_fi : String
str_fi = 102 ∷ 105 ∷ []

abbrev pub word_of : String → Word
word_of s =
    if str_eq s str_if
    then if_word
    else if str_eq s str_then
    then then_word
    else if str_eq s str_else
    then else_word
    else if str_eq s str_fi
    then fi_word
    else command

-- The locals: the stack `stk[0 … top]` with its top in front, `prev`, and the word before this one.
pub record Check : Type 0 where
  pub stk : List Word
  pub prev : Word
  pub before : Option Word

abbrev pub stk_size : ℕ
stk_size = 1000

-- One of the words "if", "then" and "else".
abbrev pub opens : Word → Bool
opens if_word = true
opens then_word = true
opens else_word = true
opens fi_word = false
opens command = false

-- `stk[++top] = w`; `none` in an answer is INVALID_COMMAND.
abbrev pub push : Word → Check → Run (Option Check)
push w c =
    if ltb (length c.stk) stk_size
    then done (some (record { stk = w ∷ c.stk; prev = c.prev; before = some w }))
    else fault

-- The loop of a "fi", with `n` turns left: the stack and `prev` after it.
unfoldable pub pop_loop : ℕ → List Word → Word → Option (List Word × Word)
pop_loop zero stk prev = some (stk, prev)
pop_loop (suc n) [] prev = some ([], prev)
pop_loop (suc n) (else_word ∷ stk) fi_word = pop_loop n stk else_word
pop_loop (suc n) (then_word ∷ stk) else_word = pop_loop n stk then_word
pop_loop (suc n) (if_word ∷ stk) then_word = pop_loop n stk fi_word
pop_loop (suc n) (w ∷ stk) prev = none

abbrev pub close : Option (List Word × Word) → Run (Option Check)
close none = done none
close (some (stk, prev)) = done (some (record { stk = stk; prev = prev; before = some fi_word }))

-- A word that is not to follow "if", "then" or "else"; with none before it, the code reads
-- listOfCommands[-1].
abbrev pub unless_opened : Option Word → Run (Option Check) → Run (Option Check)
unless_opened none next = fault
unless_opened (some w) next = if opens w then done none else next

-- An "if" is the first word, or follows one of those.
abbrev pub if_opened : Option Word → Run (Option Check) → Run (Option Check)
if_opened none next = next
if_opened (some w) next = if opens w then next else done none

unfoldable pub check_word : Word → Check → Run (Option Check)
check_word if_word c = if_opened c.before (push if_word c)
check_word then_word c = unless_opened c.before (push then_word c)
check_word else_word c = unless_opened c.before (push else_word c)
check_word fi_word c = unless_opened c.before (close (pop_loop 3 c.stk c.prev))
check_word command c = done (some (record c { before = some command }))

abbrev pub continue : (Check → Run (Option Check)) → Option Check → Run (Option Check)
continue next none = done none
continue next (some c) = next c

unfoldable pub check_words : List String → Check → Run (Option Check)
check_words [] c = done (some c)
check_words (w ∷ ws) c = do answer ← check_word (word_of w) c; continue (check_words ws) answer

-- VALID_COMMAND is 1 and INVALID_COMMAND is -1.
abbrev pub verdict : Option Check → ℤ
verdict none = minus_one
verdict (some c) = empty_stack c.stk
  where
    empty_stack : List Word → ℤ
    empty_stack [] = pos 1
    empty_stack (w ∷ stk) = minus_one

abbrev pub first_check : Check
first_check = record { stk = []; prev = fi_word; before = none }

unfoldable pub validate_if_else_condition : List String → Run ℤ
validate_if_else_condition words = do answer ← check_words words first_check; done (verdict answer)
