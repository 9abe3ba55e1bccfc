-- ===== src/Shell/Valid/Grammar.antt =====
-- The conditionals that the check accepts.
use cs551os.Prelude.{
  ℕ, ◌+◌, ◌≤◌, ◌<◌, ◌≡◌, ◌∙◌, ap, sym, refl, true, false, Option, none, some, List, [], ◌∷◌, ◌++◌,
  max, length, pos, Run, done, fault, out_of_fuel, ◌>>=◌, arith,
}
use mathlib.Core.List.{append_assoc, append-nil}
use cs551os.Shell.Assoc.{String}
use cs551os.Shell.Valid.{
  Word, if_word, then_word, else_word, fi_word, command, str_if, str_then, str_else, str_fi,
  word_of, Check, stk_size, opens, pop_loop, check_word, continue, check_words, verdict,
  first_check, validate_if_else_condition,
}

-- A command of at least one word, or a conditional.
pub data Cmd : Type 0 where
  simple : String → List String → Cmd
  cond : (test yes no : Cmd) → Cmd

-- Its words.
unfoldable pub words : Cmd → List String
words (simple w ws) = w ∷ ws
words (cond c t e) =
    str_if ∷ (words c ++ (str_then ∷ (words t ++ (str_else ∷ (words e ++ (str_fi ∷ []))))))

abbrev pub AllPlain : List String → Type 0
AllPlain [] = Unit {0}
AllPlain (w ∷ ws) = (word_of w ≡ command) × AllPlain ws

-- The words of its commands are none of the four.
abbrev pub Plain : Cmd → Type 0
Plain (simple w ws) = AllPlain (w ∷ ws)
Plain (cond c t e) = Plain c × Plain t × Plain e

-- The most that it has on the stack at once.
unfoldable pub height : Cmd → ℕ
height (simple w ws) = 0
height (cond c t e) = max (1 + height c) (max (2 + height t) (3 + height e))

abbrev last_word : Cmd → Word
last_word (simple w ws) = command
last_word (cond c t e) = fi_word

last_word-opens : (c : Cmd) → opens (last_word c) ≡ false
last_word-opens (simple w ws) = refl
last_word-opens (cond c t e) = refl

-- A command may come here.
abbrev Starts : Option Word → Type 0
Starts none = Unit {0}
Starts (some w) = opens w ≡ true

abbrev checking : List Word → Option Word → Check
checking stk before = record { stk = stk; prev = fi_word; before = before }

check_plain :
    (ws rest : List String) (stk : List Word)
    → AllPlain ws
    → check_words (ws ++ rest) (checking stk (some command))
      ≡ check_words rest (checking stk (some command))
unfolding check_words check_word
check_plain [] rest stk p = refl
check_plain (w ∷ ws) rest stk (p, ps) = rw p (check_plain ws rest stk ps)

check_opening :
    (rest : List String) (stk : List Word) (before : Option Word)
    → Starts before
    → length stk < stk_size
    → check_words (str_if ∷ rest) (checking stk before)
      ≡ check_words rest (checking (if_word ∷ stk) (some if_word))
unfolding check_words check_word
check_opening rest stk none s lt = ground arith
check_opening rest stk (some w) s lt = ground arith

check_then :
    (rest : List String) (stk : List Word) (w : Word)
    → opens w ≡ false
    → length stk < stk_size
    → check_words (str_then ∷ rest) (checking stk (some w))
      ≡ check_words rest (checking (then_word ∷ stk) (some then_word))
unfolding check_words check_word
check_then rest stk w s lt = ground arith

check_else :
    (rest : List String) (stk : List Word) (w : Word)
    → opens w ≡ false
    → length stk < stk_size
    → check_words (str_else ∷ rest) (checking stk (some w))
      ≡ check_words rest (checking (else_word ∷ stk) (some else_word))
unfolding check_words check_word
check_else rest stk w s lt = ground arith

check_fi :
    (rest : List String) (stk : List Word) (w : Word)
    → opens w ≡ false
    → check_words (str_fi ∷ rest) (checking (else_word ∷ (then_word ∷ (if_word ∷ stk))) (some w))
      ≡ check_words rest (checking stk (some fi_word))
unfolding check_words check_word pop_loop
check_fi rest stk w s = rw s refl

check_first :
    (w : String) (ws rest : List String) (stk : List Word) (before : Option Word)
    → word_of w ≡ command
    → AllPlain ws
    → check_words ((w ∷ ws) ++ rest) (checking stk before)
      ≡ check_words rest (checking stk (some command))
unfolding check_words check_word
check_first w ws rest stk before p ps = rw p (check_plain ws rest stk ps)

-- The words of a conditional with more behind them.
unfoldable pub cond_words : (c t e : Cmd) (rest : List String) → List String
cond_words c t e rest =
    words c ++ (str_then ∷ (words t ++ (str_else ∷ (words e ++ (str_fi ∷ rest)))))

pub words-cond :
    (c t e : Cmd) (rest : List String) → words (cond c t e) ++ rest ≡ str_if ∷ cond_words c t e rest
unfolding words cond_words
words-cond c t e rest =
    ap (λ l. str_if ∷ l)
      (append_assoc (words c) (str_then ∷ (words t ++ (str_else ∷ (words e ++ (str_fi ∷ []))))) rest
        ∙ ap (λ l. words c ++ (str_then ∷ l))
            (append_assoc (words t) (str_else ∷ (words e ++ (str_fi ∷ []))) rest
              ∙ ap (λ l. words t ++ (str_else ∷ l)) (append_assoc (words e) (str_fi ∷ []) rest)))

check_cmd :
    (c : Cmd) (rest : List String) (stk : List Word) (before : Option Word)
    → Plain c
    → Starts before
    → length stk + height c ≤ stk_size
    → check_words (words c ++ rest) (checking stk before)
      ≡ check_words rest (checking stk (some (last_word c)))
unfolding height words cond_words check_words
check_cmd (simple w ws) rest stk before (p, ps) s le = check_first w ws rest stk before p ps
check_cmd (cond c t e) rest stk before (pc, pt, pe) s le =
    let stk₁ = if_word ∷ stk in
    let stk₂ = then_word ∷ stk₁ in
    let stk₃ = else_word ∷ stk₂ in
    let after_e = str_fi ∷ rest in
    let after_t = str_else ∷ (words e ++ after_e) in
    let after_c = str_then ∷ (words t ++ after_t) in
    ap (λ l. check_words l (checking stk before)) (words-cond c t e rest)
    ∙ check_opening (words c ++ after_c) stk before s (omega arith)
    ∙ check_cmd c after_c stk₁ (some if_word) pc refl (omega arith)
    ∙ check_then (words t ++ after_t) stk₁ (last_word c) (last_word-opens c) (omega arith)
    ∙ check_cmd t after_t stk₂ (some then_word) pt refl (omega arith)
    ∙ check_else (words e ++ after_e) stk₂ (last_word t) (last_word-opens t) (omega arith)
    ∙ check_cmd e after_e stk₃ (some else_word) pe refl (omega arith)
    ∙ check_fi rest stk (last_word e) (last_word-opens e)

-- The words of any command or conditional, whatever it nests, are found valid, if their "if",
-- "then" and "else" go into the stack of 1000 and its commands use none of the four words.
pub validate-words :
    (c : Cmd) → Plain c → height c ≤ stk_size → validate_if_else_condition (words c) ≡ done (pos 1)
unfolding validate_if_else_condition check_words
validate-words c p le =
    ap (λ ws. check_words ws first_check >>= λ answer. done (verdict answer))
      (sym (append-nil (words c)))
    ∙ ap (λ r. r >>= λ answer. done (verdict answer)) (check_cmd c [] [] none p tt (omega arith))

check_words-append :
    (ws more : List String) (c : Check)
    → check_words (ws ++ more) c
      ≡ (check_words ws c >>= λ answer. continue (check_words more) answer)
unfolding check_words
check_words-append [] more c = refl
check_words-append (w ∷ ws) more c = both (check_words-append ws more) (check_word (word_of w) c)
  where
    both :
        ((c' : Check)
          → check_words (ws ++ more) c'
            ≡ (check_words ws c' >>= λ answer. continue (check_words more) answer))
        → (r : Run (Option Check))
        → (r >>= λ answer. continue (check_words (ws ++ more)) answer) ≡ (
            (r >>= λ answer. continue (check_words ws) answer) >>= λ answer.
            continue (check_words more) answer)
    both ih (done none) = refl
    both ih (done (some c')) = ih c'
    both ih fault = refl
    both ih out_of_fuel = refl

-- A "fi" too many passes: behind words that are valid and do not end in "if", "then" or "else",
-- it finds an empty stack, and the whole is valid.
validate-extra_fi :
    (ws : List String) (c : Check) (w : Word)
    → check_words ws first_check ≡ done (some c)
    → c.stk ≡ []
    → c.before ≡ some w
    → opens w ≡ false
    → (validate_if_else_condition ws ≡ done (pos 1))
      × (validate_if_else_condition (ws ++ (str_fi ∷ [])) ≡ done (pos 1))
unfolding validate_if_else_condition check_words check_word pop_loop
validate-extra_fi ws c w e empty b o =
    (rw (e, empty) refl, rw (check_words-append ws (str_fi ∷ []) first_check, e, b, o, empty) refl)
