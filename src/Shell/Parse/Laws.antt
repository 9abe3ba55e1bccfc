-- ===== src/Shell/Parse/Laws.antt =====
-- The parameters of a command of plain words and operators.
use cs551os.Prelude.{
  ℕ, ◌+◌, ◌<◌, ◌≤◌, ◌≡◌, ◌∙◌, refl, ap, Bool, true, false, List, [], ◌∷◌, ◌++◌, ◌==◌, ltb, length,
  fault, ◌>>=◌, Gives, if_true, lt→ltb, arith, length-append,
}
use mathlib.Core.List.{append_assoc}
use cs551os.Lines.{Text}
use cs551os.Shell.Parse.{
  is_operator, parse_char, parse_chars, param_size, max_params, clean_all, clean_params, tokenise,
}
use cs551os.Shell.Parse.Search.{NoKeyword}
use cs551os.Shell.Parse.Squeeze.{all_ordinary, squeeze, spaced, tokens_at, parse_text}

-- '&', '>' or '|'.
pub record IsOperator (op : ℕ) : Type 0 where
  pub no_quote : (op == 34) ≡ false
  pub is_one : is_operator op ≡ true
  pub not_end : (op == 0) ≡ false

-- Behind a text that is not empty, an operator ends the parameter, and is one.
parse_operator :
    (op : ℕ) (rest : Text) (params : List Text) (param : Text) (size n : ℕ) (f : Bool)
    → IsOperator op
    → 0 < n
    → length params + 2 ≤ max_params
    → parse_chars (op ∷ rest) (tokens_at params param size n f)
      ≡ parse_chars rest
          (tokens_at ((params ++ (param ∷ [])) ++ ((op ∷ []) ∷ [])) [] param_size 0 f)
unfolding parse_chars parse_char
parse_operator op rest params param size n f is_op some_chars room =
    let counted : (n == 0) ≡ false = ground arith in
    rw
      (
        is_op.no_quote,
        is_op.is_one,
        counted,
        lt→ltb (length params) max_params (omega arith),
        lt→ltb (length (params ++ (param ∷ []))) max_params
            (omega (arith, length-append params (param ∷ []))),
        is_op.not_end,
      )
      refl

-- The terminator.
parse_end :
    (params : List Text) (param : Text) (size n : ℕ) (f : Bool)
    → 0 < n
    → length params < max_params
    → Gives
        (parse_chars (0 ∷ []) (tokens_at params param size n f))
        (λ s. s.params ≡ params ++ (param ∷ []))
unfolding parse_chars parse_char
parse_end params param size n f some_chars room =
    let counted : (n == 0) ≡ false = ground arith in
    (
      tokens_at (params ++ (param ∷ [])) param size n f,
      rw (counted, lt→ltb (length params) max_params room) refl,
      refl,
    )

-- A command: a text, and operators with the text behind each.
unfoldable pub command_of : Text → List (ℕ × Text) → Text
command_of t [] = t
command_of t (o ∷ ops) = t ++ (o.0 ∷ command_of o.1 ops)

-- The parameters: the texts, squeezed, and the operators between them.
unfoldable pub pieces : Bool → Text → List (ℕ × Text) → List Text
pieces f t [] = squeeze f t ∷ []
pieces f t (o ∷ ops) = squeeze f t ∷ ((o.0 ∷ []) ∷ pieces (spaced f t) o.1 ops)

-- A text for a buffer of `size` bytes: ordinary bytes, not only skipped spaces, and no keyword.
pub record Fitting (size : ℕ) (f : Bool) (t : Text) : Type 0 where
  pub plain : all_ordinary t ≡ true
  pub some_bytes : 0 < length (squeeze f t)
  pub short : length (squeeze f t) < size
  pub no_keyword : NoKeyword (squeeze f t)

pub data Command : ℕ → Bool → Text → List (ℕ × Text) → Type 0 where
  last : {size : ℕ} {f : Bool} {t : Text} → Fitting size f t → Command size f t []
  piped :
      {size : ℕ} {f : Bool} {t : Text} {o : ℕ × Text} {ops : List (ℕ × Text)}
      → Fitting size f t
      → IsOperator o.0
      → Command param_size (spaced f t) o.1 ops
      → Command size f t (o ∷ ops)

parse-Command :
    (t : Text) (ops : List (ℕ × Text)) (params : List Text) (size : ℕ) (f : Bool)
    → Command size f t ops
    → length params + length (pieces f t ops) ≤ max_params
    → Gives
        (parse_chars (command_of t ops ++ (0 ∷ [])) (tokens_at params [] size 0 f))
        (λ s. s.params ≡ params ++ pieces f t ops)
unfolding command_of pieces
parse-Command t [] params size f (last fit) room =
    let (m, count, run) =
      parse_text t (0 ∷ []) params [] size 0 f fit.plain (omega (arith, fit.short))
        fit.no_keyword in
    let (s, e, same) =
      parse_end params (squeeze f t) size m (spaced f t) (omega (arith, count, fit.some_bytes))
        (omega (arith, room)) in
    (s, run ∙ e, same)
parse-Command t (o ∷ ops) params size f (piped fit op rest) room =
    let tail = command_of o.1 ops ++ (0 ∷ []) in
    let (m, count, run) =
      parse_text t (o.0 ∷ tail) params [] size 0 f fit.plain (omega (arith, fit.short))
        fit.no_keyword in
    let here =
      parse_operator o.0 tail params (squeeze f t) size m (spaced f t) op
        (omega (arith, count, fit.some_bytes)) (omega (arith, room)) in
    let params' = (params ++ (squeeze f t ∷ [])) ++ ((o.0 ∷ []) ∷ []) in
    let sizes = length-append (params ++ (squeeze f t ∷ [])) ((o.0 ∷ []) ∷ []) in
    let sizes' = length-append params (squeeze f t ∷ []) in
    let (s, e, same) =
      parse-Command o.1 ops params' param_size (spaced f t) rest
        (omega (arith, room, sizes, sizes')) in
    (
      s,
      ap (λ u. parse_chars u (tokens_at params [] size 0 f))
            (append_assoc t (o.0 ∷ command_of o.1 ops) (0 ∷ []))
          ∙ (run ∙ (here ∙ e)),
      same
          ∙ (append_assoc (params ++ (squeeze f t ∷ [])) ((o.0 ∷ []) ∷ [])
                (pieces (spaced f t) o.1 ops)
              ∙ append_assoc params (squeeze f t ∷ []) ((o.0 ∷ []) ∷ pieces (spaced f t) o.1 ops)),
    )

-- A command of texts with operators between them, where the texts have no keyword, no quote and
-- some byte that is not a skipped space, the first has less than 100 bytes and the others less than
-- 30, and with less than 18 parameters, is parsed to the texts with their runs of spaces squeezed
-- and the operators, each cleaned as `cleanCmd` does.
pub tokenise_lem :
    (t : Text) (ops : List (ℕ × Text))
    → Command 100 false t ops
    → length (pieces false t ops) < max_params
    → tokenise (command_of t ops) ≡ clean_all (pieces false t ops)
unfolding tokenise
tokenise_lem t ops command room =
    let (s, e, same) = parse-Command t ops [] 100 false command (omega (arith, room)) in
    let few : ltb (length s.params) max_params ≡ true =
      lt→ltb (length s.params) max_params (omega (arith, room, ap length same)) in
    ap (λ r. r >>= (λ u. clean_params u.params)) e
    ∙ (if_true (clean_all s.params) fault few ∙ ap clean_all same)
