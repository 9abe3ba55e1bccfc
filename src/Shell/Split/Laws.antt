-- ===== src/Shell/Split/Laws.antt =====
-- What `split` makes of a command line.
use cs551os.Prelude.{
  ℕ, ◌+◌, ◌≤◌, ◌<◌, ◌≡◌, ◌∙◌, ap, sym, refl, inl, inr, Bool, false, not, List, [], ◌∷◌, ◌++◌, ◌==◌,
  length, length-append, if◌then◌else◌, if_true, lt→ltb, subst, Bool-cases, Run, done, fault, arith,
}
use mathlib.Core.List.{append_assoc, append-nil}
use cs551os.Shell.Assoc.{String}
use cs551os.Shell.Split.{
  quote, separates, count_loop, count_spaces, tstr_size, end_word, put_byte, split_loop, split,
}

-- The bytes that are neither quotes nor separating spaces.
unfoldable pub kept : Bool → String → String
kept skip [] = []
kept skip (c ∷ cs) =
    let quoted = kept (not skip) cs in
    let same = kept skip cs in
    if c == quote then quoted else if separates skip c then same else c ∷ same

unfoldable pub concat : List String → String
concat [] = []
concat (w ∷ ws) = w ++ concat ws

concat-snoc : (ws : List String) (w : String) → concat (ws ++ (w ∷ [])) ≡ concat ws ++ w
unfolding concat
concat-snoc [] w = append-nil w
concat-snoc (v ∷ ws) w = ap (λ l. v ++ l) (concat-snoc ws w) ∙ sym (append_assoc v (concat ws) w)

-- A run that gives words: at most `n` of them, with the bytes `text`.
abbrev pub Gives : Run (List String) → ℕ → String → Type 0
Gives r n text = (ws : List String) × (r ≡ done ws) × (length ws ≤ n) × (concat ws ≡ text)

end_word-Gives :
    (tstr : String) (lines : List String) (next : List String → Run (List String)) (n : ℕ)
    (text : String)
    → length tstr < tstr_size
    → Gives (next (lines ++ (tstr ∷ []))) n text
    → Gives (end_word tstr lines next) n text
end_word-Gives tstr lines next n text lt (ws, e, le, same) =
    (ws, if_true _ fault (lt→ltb _ _ lt) ∙ e, le, same)

put_byte-Gives :
    (c : ℕ) (tstr : String) (next : String → Run (List String)) (n : ℕ) (text : String)
    → length tstr < tstr_size
    → Gives (next (tstr ++ (c ∷ []))) n text
    → Gives (put_byte c tstr next) n text
put_byte-Gives c tstr next n text lt (ws, e, le, same) =
    (ws, if_true _ fault (lt→ltb _ _ lt) ∙ e, le, same)

Gives-text :
    {r : Run (List String)} {n : ℕ} {text text' : String}
    → text ≡ text'
    → Gives r n text
    → Gives r n text'
Gives-text {r} {n} e g = subst (Gives r n) e g

last-Gives :
    (tstr : String) (lines : List String) (m : ℕ)
    → length tstr < tstr_size
    → length lines + 1 ≤ m
    → Gives (end_word tstr lines (λ l. done l)) m (concat lines ++ tstr)
last-Gives tstr lines m lt le =
    end_word-Gives tstr lines (λ l. done l) m (concat lines ++ tstr) lt
      (
        lines ++ (tstr ∷ []),
        refl,
        omega (arith, length-append {0} lines (tstr ∷ [])),
        concat-snoc lines tstr,
      )

split_loop-Gives :
    (c : ℕ) (cs : String) (skip : Bool) (tstr : String) (lines : List String) (n : ℕ)
    → length tstr + length cs < 255
    → length lines ≤ n
    → Gives
        (split_loop (c ∷ cs) skip tstr lines)
        (count_loop (c ∷ cs) skip n + 1)
        (concat lines ++ (tstr ++ kept skip (c ∷ cs)))
unfolding split_loop count_loop kept
split_loop-Gives c [] skip tstr lines n lt le = elim (Bool-cases (c == quote)) [
  | inl q ↦ rw (q, append-nil tstr) (last-Gives tstr lines (n + 1) (omega arith) (omega arith))
  | inr nq ↦ elim (Bool-cases (separates skip c)) [
    | inl s ↦
        rw (nq, s, append-nil tstr) (last-Gives tstr lines (n + 1 + 1) (omega arith) (omega arith))
    | inr b ↦
        rw (nq, b)
          (put_byte-Gives c tstr (λ t. end_word t lines (λ l. done l)) _ _ (omega arith)
            (last-Gives (tstr ++ (c ∷ [])) lines (n + 1)
              (omega (arith, length-append {0} tstr (c ∷ []))) (omega arith)))
  ]
]
split_loop-Gives c (d ∷ cs) skip tstr lines n lt le = elim (Bool-cases (c == quote)) [
  | inl q ↦ rw q (split_loop-Gives d cs (not skip) tstr lines n (omega arith) le)
  | inr nq ↦ elim (Bool-cases (separates skip c)) [
    | inl s ↦
        rw (nq, s)
          (end_word-Gives tstr lines (λ l. split_loop (d ∷ cs) skip [] l) _ _ (omega arith)
            (Gives-text
              (ap (λ l. l ++ kept skip (d ∷ cs)) (concat-snoc lines tstr)
                ∙ append_assoc (concat lines) tstr (kept skip (d ∷ cs)))
              (split_loop-Gives d cs skip [] (lines ++ (tstr ∷ [])) (n + 1) (omega arith)
                (omega (arith, length-append {0} lines (tstr ∷ []))))))
    | inr b ↦
        rw (nq, b)
          (put_byte-Gives c tstr (λ t. split_loop (d ∷ cs) skip t lines) _ _ (omega arith)
            (Gives-text
              (ap (λ l. concat lines ++ l) (append_assoc tstr (c ∷ []) (kept skip (d ∷ cs))))
              (split_loop-Gives d cs skip (tstr ++ (c ∷ [])) lines n
                (omega (arith, length-append {0} tstr (c ∷ []))) le)))
  ]
]

-- `split` of a line of at most 255 bytes returns; it makes at most one word more than
-- `count_spaces` counts, so that the words and the NULL behind them fit the list that
-- `execute_single` allocates for them; and the words, put together, are the bytes of the line
-- without its quotes and the spaces outside of quotes.
pub split_lem :
    (str : String)
    → length str ≤ 255
    → (words : List String) × (split str ≡ done words)
      × (length words ≤ count_spaces str + 1)
      × (concat words ≡ kept false str)
unfolding split count_spaces split_loop count_loop kept concat
split_lem [] le = ([], refl, omega arith, refl)
split_lem (c ∷ cs) le = split_loop-Gives c cs false [] [] 0 (omega arith) (omega arith)
