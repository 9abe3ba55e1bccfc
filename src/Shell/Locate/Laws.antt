-- ===== src/Shell/Locate/Laws.antt =====
-- `execute` finds the parts of the conditional that it runs, past those that it nests.
use cs551os.Prelude.{
  ℕ, ◌+◌, ◌-◌, ◌≡◌, ◌∙◌, ap, false, List, [], ◌∷◌, ◌++◌, ◌==◌, length, length-append, if_false, pos,
  arith,
}
use cs551os.Shell.Assoc.{String}
use cs551os.Shell.Valid.{str_then, str_else, str_fi}
use cs551os.Shell.Valid.Grammar.{Cmd, simple, cond, words, AllPlain, Plain, cond_words, words-cond}
use cs551os.Shell.Locate.{Locations, locate_word, locate, no_locations}

locate-plain :
    (ws rest : List String) (i : ℕ) (l : Locations)
    → AllPlain ws
    → locate (ws ++ rest) i l ≡ locate rest (i + length ws) l
unfolding locate locate_word
locate-plain [] rest i l p = ap (λ j. locate rest j l) (omega arith)
locate-plain (w ∷ ws) rest i l (p, ps) =
    rw p (locate-plain ws rest (i + 1) l ps ∙ ap (λ j. locate rest j l) (omega arith))

length-cond :
    (c t e : Cmd)
    → length (words (cond c t e)) ≡ length (words c) + length (words t) + length (words e) + 4
unfolding words
length-cond c t e = omega (
  arith,
  length-append {0} (words c) (str_then ∷ (words t ++ (str_else ∷ (words e ++ (str_fi ∷ []))))),
  length-append {0} (words t) (str_else ∷ (words e ++ (str_fi ∷ []))),
  length-append {0} (words e) (str_fi ∷ []),
)

-- Inside of an inner conditional, "then" and "else" are passed over.
module _ (rest : List String) (i : ℕ) (l : Locations) where
  inner : Locations
  inner = record l { if_cnt = l.if_cnt + 1 }

  inner-then : locate (str_then ∷ rest) i inner ≡ locate rest (i + 1) inner
  unfolding locate locate_word inner
  inner-then = ap (locate rest (i + 1)) (ground arith)

  inner-else : locate (str_else ∷ rest) i inner ≡ locate rest (i + 1) inner
  unfolding locate locate_word inner
  inner-else = ap (locate rest (i + 1)) (ground arith)

  inner-fi : locate (str_fi ∷ rest) i inner ≡ locate rest (i + 1) l
  unfolding locate locate_word inner
  inner-fi =
      let not_here : (l.if_cnt + 1 == 0) ≡ false = ground arith in
      let back : l.if_cnt + 1 - 1 ≡ l.if_cnt = omega arith in
      if_false _ _ not_here ∙ (λ j. locate rest (i + 1) (record l { if_cnt = back j }))

-- A whole command or conditional is passed over.
locate-words :
    (c : Cmd) (rest : List String) (i : ℕ) (l : Locations)
    → Plain c
    → locate (words c ++ rest) i l ≡ locate rest (i + length (words c)) l
unfolding words cond_words locate locate_word inner
locate-words (simple w ws) rest i l p = locate-plain (w ∷ ws) rest i l p
locate-words (cond c t e) rest i l (pc, pt, pe) =
    let l' = inner rest i l in
    let after_e = str_fi ∷ rest in
    let after_t = str_else ∷ (words e ++ after_e) in
    let after_c = str_then ∷ (words t ++ after_t) in
    let at_t = i + 1 + length (words c) in
    let at_e = at_t + 1 + length (words t) in
    let at_fi = at_e + 1 + length (words e) in
    ap (λ ws. locate ws i l) (words-cond c t e rest)
    ∙ locate-words c after_c (i + 1) l' pc
    ∙ inner-then (words t ++ after_t) at_t l
    ∙ locate-words t after_t (at_t + 1) l' pt
    ∙ inner-else (words e ++ after_e) at_e l
    ∙ locate-words e after_e (at_e + 1) l' pe
    ∙ inner-fi rest at_fi l
    ∙ ap (λ j. locate rest j l) (omega (arith, length-cond c t e))

-- For a conditional from index `start` on, whose commands use none of the four words, with whatever
-- behind it, the loop finds the "then", the "else" and the "fi" that belong to it, however many
-- conditionals its parts nest.
pub locate_lem :
    (c t e : Cmd) (rest : List String) (start : ℕ)
    → Plain (cond c t e)
    → let then_at = start + 1 + length (words c) in
      let else_at = then_at + 1 + length (words t) in
      let fi_at = else_at + 1 + length (words e) in
      locate (cond_words c t e rest) (start + 1) no_locations ≡ (record {
        then_locn = pos then_at;
        else_locn = pos else_at;
        fi_locn = pos fi_at;
        if_cnt = 0;
      })
unfolding cond_words locate locate_word
locate_lem c t e rest start (pc, pt, pe) =
    let after_e = str_fi ∷ rest in
    let after_t = str_else ∷ (words e ++ after_e) in
    let after_c = str_then ∷ (words t ++ after_t) in
    let at_t = start + 1 + length (words c) in
    let at_e = at_t + 1 + length (words t) in
    let l₁ : Locations = record no_locations { then_locn = pos at_t } in
    let l₂ : Locations = record l₁ { else_locn = pos at_e } in
    locate-words c after_c (start + 1) no_locations pc
    ∙ locate-words t after_t (at_t + 1) l₁ pt
    ∙ locate-words e after_e (at_e + 1) l₂ pe
