-- ===== src/Shell/Execute/Laws.antt =====
-- A nested conditional runs as its structure says.
use cs551os.Prelude.{
  ℕ, zero, suc, ◌+◌, ◌<◌, ◌≡◌, ◌∙◌, refl, ap, sym, true, false, not, ◌||◌, List, [], ◌∷◌, ◌++◌, ltb,
  length, length-append, if◌then◌else◌, some, get_elem?, drop, pos, max, Run, done, ◌>>=◌, arith,
  lt→ltb, Bool-cases, inl, inr,
}
use mathlib.Core.List.{append_assoc}
use cs551os.Lines.{Text}
use cs551os.Shell.Assoc.{str_eq}
use cs551os.Shell.Parse.{if_text, then_text, else_text, fi_text}
use cs551os.Shell.Check.{cd_name}
use cs551os.Shell.Turn.{Shell}
use cs551os.Shell.Valid.Grammar.{Cmd, simple, cond, words, Plain, cond_words, words-cond}
use cs551os.Shell.Locate.{Locations, locate, no_locations}
use cs551os.Shell.Locate.Laws.{locate_lem}
use cs551os.Shell.Execute.{System, Ran, execute_single, passed, execute, redirect_text, pipe_text}

-- The run of a command or conditional by its structure: the test decides by whether its process is
-- gone, with all that were forked in it.
unfoldable pub run_cmd : System → Cmd → Shell → Run Ran
run_cmd sys (simple w ws) sh = execute_single sys w sh
run_cmd sys (cond c t e) sh =
    let yes = run_cmd sys t sh in
    let no = run_cmd sys e sh in
    (do
      test ← run_cmd sys c sh
      r ← (if passed test then yes else no)
      done (record r { events = test.events ++ r.events; strays = not (passed test) || r.strays }))

-- No operator and no "cd" alone.
abbrev pub Runs : Text → Type 0
Runs w =
    (str_eq w redirect_text ≡ false)
    × (str_eq w pipe_text ≡ false)
    × (str_eq w if_text ≡ false)
    × (str_eq w cd_name ≡ false)

-- Commands of one word each.
abbrev pub Single : Cmd → Type 0
Single (simple w ws) = (ws ≡ []) × Runs w
Single (cond c t e) = Single c × Single t × Single e

-- The depth of the conditionals.
unfoldable pub depth : Cmd → ℕ
depth (simple w ws) = 0
depth (cond c t e) = suc (max (depth c) (max (depth t) (depth e)))

-- What follows is no operator.
abbrev pub NoOperator : List Text → Type 0
NoOperator [] = Unit {0}
NoOperator (w ∷ ws) = (str_eq w redirect_text ≡ false) × (str_eq w pipe_text ≡ false)

pub drop_front : (xs ys : List Text) → drop (length xs) (xs ++ ys) ≡ ys
drop_front [] ys = refl
drop_front (x ∷ xs) ys = drop_front xs ys

drop_one :
    (xs : List Text) (y : Text) (ys : List Text) → drop (suc (length xs)) (xs ++ (y ∷ ys)) ≡ ys
drop_one [] y ys = refl
drop_one (x ∷ xs) y ys = drop_one xs y ys

drop_behind :
    (xs : List Text) (y : Text) (ys : List Text) → drop (length xs + 1) (xs ++ (y ∷ ys)) ≡ ys
drop_behind xs y ys =
    let one : length xs + 1 ≡ suc (length xs) = omega arith in
    ap (λ n. drop n (xs ++ (y ∷ ys))) one ∙ drop_one xs y ys

pub get_elem?_front :
    (xs ys : List Text) (i j : ℕ) → j ≡ length xs + i → get_elem? (xs ++ ys) j ≡ get_elem? ys i
get_elem?_front [] ys i j e = ap (get_elem? ys) (omega (arith, e))
get_elem?_front (x ∷ xs) ys i zero e = absurd (omega arith)
get_elem?_front (x ∷ xs) ys i (suc j) e = get_elem?_front xs ys i j (omega (arith, e))

words-NoOperator : (c : Cmd) (rest : List Text) → Single c → NoOperator (words c ++ rest)
unfolding words
words-NoOperator (simple w ws) rest (e, (r, p, i, d)) = (r, p)
words-NoOperator (cond c t e) rest s = (refl, refl)

run_simple :
    (sys : System) (fuel : ℕ) (before rest : List Text) (w : Text) (sh : Shell)
    → Runs w
    → NoOperator rest
    → execute sys (suc fuel) (before ++ (w ∷ rest)) (length before) sh ≡ execute_single sys w sh
unfolding execute
run_simple sys fuel before [] w sh (r, p, i, d) other =
    rw (drop_front before (w ∷ []), get_elem?_front before (w ∷ []) 0 (length before) (omega arith))
      refl
run_simple sys fuel before (x ∷ []) w sh (r, p, i, d) other =
    rw
      (
        drop_front before (w ∷ (x ∷ [])),
        get_elem?_front before (w ∷ (x ∷ [])) 0 (length before) (omega arith),
      )
      refl
run_simple sys fuel before (x ∷ (y ∷ rest)) w sh (r, p, i, d) (no_redirect, no_pipe) =
    let list = w ∷ (x ∷ (y ∷ rest)) in
    let long : ltb 2 (suc (suc (suc (length rest)))) ≡ true = ground arith in
    rw
      (
        drop_front before list,
        long,
        get_elem?_front before list 0 (length before) (omega arith),
        get_elem?_front before list 1 (length before + 1) (omega arith),
        no_redirect,
        no_pipe,
        i,
        d,
      )
      refl

-- The first of the words behind "if" is no operator.
first_word :
    (ws : List Text)
    → NoOperator ws
    → 0 < length ws
    → (w : Text) × (get_elem? ws 0 ≡ some w)
      × (str_eq w redirect_text ≡ false)
      × (str_eq w pipe_text ≡ false)
first_word [] no_op lt = absurd (omega arith)
first_word (w ∷ ws) (r, p) lt = (w, refl, r, p)

length-cond_words : (c t e : Cmd) (rest : List Text) → 2 < length (cond_words c t e rest)
unfolding cond_words
length-cond_words c t e rest = omega (
  arith,
  length-append (words c) (then_text ∷ (words t ++ (else_text ∷ (words e ++ (fi_text ∷ rest))))),
  length-append (words t) (else_text ∷ (words e ++ (fi_text ∷ rest))),
  length-append (words e) (fi_text ∷ rest),
)

-- What the test leaves to the run of the part that was chosen.
abbrev join : Ran → Ran → Run Ran
join test r =
    done (record r { events = test.events ++ r.events; strays = not (passed test) || r.strays })

-- A part of the list, from some index on.
module _ (sys : System) (fuel : ℕ) (sh : Shell) where
  execute_part :
      (list before rest : List Text) (c : Cmd) (i : ℕ)
      → list ≡ before ++ (words c ++ rest)
      → i ≡ length before
      → execute sys fuel (before ++ (words c ++ rest)) (length before) sh ≡ run_cmd sys c sh
      → execute sys fuel list i sh ≡ run_cmd sys c sh
  execute_part list before rest c i same at run =
      ap (λ l. execute sys fuel l i sh) same
      ∙ (ap (λ j. execute sys fuel (before ++ (words c ++ rest)) j sh) at ∙ run)

  after_test :
      (list : List Text) (t e : Cmd) (i k : ℕ)
      → execute sys fuel list i sh ≡ run_cmd sys t sh
      → execute sys fuel list k sh ≡ run_cmd sys e sh
      → (test : Ran)
      → (execute sys fuel list (if passed test then i else k) sh >>= join test)
        ≡ ((if passed test then run_cmd sys t sh else run_cmd sys e sh) >>= join test)
  after_test list t e i k run_t run_e test = elim (Bool-cases (passed test)) [
    | inl holds ↦ rw (holds, run_t) refl
    | inr fails ↦ rw (fails, run_e) refl
  ]

  -- The conditional at an index, with the runs of its parts.
  run_cond :
      (before rest : List Text) (c t e : Cmd) (then_at else_at : ℕ)
      → Single c
      → (l : Locations) → locate (cond_words c t e rest) (length before + 1) no_locations ≡ l
      → l.then_locn ≡ pos then_at
      → l.else_locn ≡ pos else_at
      → let list = before ++ (if_text ∷ cond_words c t e rest) in
        execute sys fuel list (length before + 1) sh ≡ run_cmd sys c sh
        → execute sys fuel list (then_at + 1) sh ≡ run_cmd sys t sh
        → execute sys fuel list (else_at + 1) sh ≡ run_cmd sys e sh
        → execute sys (suc fuel) list (length before) sh ≡ run_cmd sys (cond c t e) sh
  unfolding execute run_cmd cond_words
  run_cond before rest c t e then_at else_at single l located at_then at_else run_c run_t run_e =
      let inner = cond_words c t e rest in
      let list = before ++ (if_text ∷ inner) in
      let long : ltb 2 (suc (length inner)) ≡ true =
        lt→ltb 2 (suc (length inner)) (omega (arith, length-cond_words c t e rest)) in
      let (w, first, no_redirect, no_pipe) =
        first_word inner
          (words-NoOperator c (then_text ∷ (words t ++ (else_text ∷ (words e ++ (fi_text ∷ rest)))))
            single)
          (omega (arith, length-cond_words c t e rest)) in
      let behind_if : drop (length before + 1) list ≡ inner = drop_behind before if_text inner in
      rw
        (
          drop_front before (if_text ∷ inner),
          long,
          get_elem?_front before (if_text ∷ inner) 0 (length before) (omega arith),
          get_elem?_front before (if_text ∷ inner) 1 (length before + 1) (omega arith),
          first,
          no_redirect,
          no_pipe,
          behind_if,
          located,
          at_then,
          at_else,
          run_c,
        )
        (λ j.
          run_cmd sys c sh
          >>= (λ test. after_test list t e (then_at + 1) (else_at + 1) run_t run_e test j))

-- A word and what is in front of it go to the part in front.
move :
    (before ws : List Text) (w : Text) (rest : List Text)
    → before ++ (ws ++ (w ∷ rest)) ≡ (before ++ (ws ++ (w ∷ []))) ++ rest
move before ws w rest =
    ap (λ l. before ++ l) (sym (append_assoc ws (w ∷ []) rest))
    ∙ sym (append_assoc before (ws ++ (w ∷ [])) rest)

length-move :
    (before ws : List Text) (w : Text)
    → length (before ++ (ws ++ (w ∷ []))) ≡ length before + length ws + 1
length-move before ws w =
    omega (arith, length-append before (ws ++ (w ∷ [])), length-append ws (w ∷ []))

-- A command or a conditional of commands of one word, with conditionals in it to any depth, which
-- stands anywhere in the list with no operator behind it, is run by `execute` as its structure
-- says, with more fuel than it is deep: the test, then the part for a test whose process is gone
-- with all that were forked in it, or else the other part, whatever the system answers; a test that
-- fails fails the conditionals whose tests it stands in, too.
pub execute_lem :
    (sys : System) (c : Cmd) (fuel : ℕ) (before rest : List Text) (sh : Shell)
    → Plain c
    → Single c
    → NoOperator rest
    → depth c < fuel
    → execute sys fuel (before ++ (words c ++ rest)) (length before) sh ≡ run_cmd sys c sh
unfolding words depth run_cmd cond_words
execute_lem sys c zero before rest sh plain single no_op lt = absurd (omega arith)
execute_lem sys (simple w ws) (suc fuel) before rest sh plain (one, runs) no_op lt =
    ap (λ l. execute sys (suc fuel) (before ++ (w ∷ (l ++ rest))) (length before) sh) one
    ∙ run_simple sys fuel before rest w sh runs no_op
execute_lem sys (cond c t e) (suc fuel) before rest sh (pc, pt, pe) (sc, st, se) no_op lt =
    let tail_e = fi_text ∷ rest in
    let tail_t = else_text ∷ (words e ++ tail_e) in
    let tail_c = then_text ∷ (words t ++ tail_t) in
    let list = before ++ (if_text ∷ cond_words c t e rest) in
    let before_c = before ++ (if_text ∷ []) in
    let before_t = before_c ++ (words c ++ (then_text ∷ [])) in
    let before_e = before_t ++ (words t ++ (else_text ∷ [])) in
    let same_c : list ≡ before_c ++ (words c ++ tail_c) =
      sym (append_assoc before (if_text ∷ []) (words c ++ tail_c)) in
    let same_t : list ≡ before_t ++ (words t ++ tail_t) =
      same_c ∙ move before_c (words c) then_text (words t ++ tail_t) in
    let same_e : list ≡ before_e ++ (words e ++ tail_e) =
      same_t ∙ move before_t (words t) else_text (words e ++ tail_e) in
    let size_c = length-append before (if_text ∷ []) in
    let size_t = length-move before_c (words c) then_text in
    let size_e = length-move before_t (words t) else_text in
    let then_at = length before + 1 + length (words c) in
    let else_at = then_at + 1 + length (words t) in
    ap (λ l. execute sys (suc fuel) (before ++ l) (length before) sh) (words-cond c t e rest)
    ∙ run_cond sys fuel sh before rest c t e then_at else_at sc _
        (locate_lem c t e rest (length before) (pc, pt, pe)) refl refl
        (execute_part sys fuel sh list before_c tail_c c (length before + 1) same_c
          (omega (arith, size_c))
          (execute_lem sys c fuel before_c tail_c sh pc sc (refl, refl) (omega arith)))
        (execute_part sys fuel sh list before_t tail_t t (then_at + 1) same_t
          (omega (arith, size_c, size_t))
          (execute_lem sys t fuel before_t tail_t sh pt st (refl, refl) (omega arith)))
        (execute_part sys fuel sh list before_e tail_e e (else_at + 1) same_e
          (omega (arith, size_c, size_t, size_e))
          (execute_lem sys e fuel before_e tail_e sh pe se (refl, refl) (omega arith)))
