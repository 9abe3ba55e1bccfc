-- ===== src/Shell/Parse/Squeeze.antt =====
-- A text without operators and quotes goes to the parameter, with its spaces squeezed.
use cs551os.Prelude.{
  ℕ, suc, ◌+◌, ◌<◌, ◌≡◌, ◌∙◌, refl, ap, sym, subst, Bool, true, false, not, ◌&&◌, List, [], ◌∷◌,
  ◌++◌, ◌==◌, length, if◌then◌else◌, none, done, Bool-cases, inl, inr, if_true, if_false, lt→ltb,
  arith, length-append, and-split, not-true,
}
use mathlib.Core.List.{append_assoc, append-nil}
use cs551os.Lines.{Text}
use cs551os.Shell.Parse.{Tokens, is_operator, find_keyword, parse_char, parse_chars}
use cs551os.Shell.Parse.Search.{NoKeyword, NoKeyword-front}

-- A byte that is no quote and no operator.
abbrev pub ordinary : ℕ → Bool
ordinary c = not (c == 34) && not (is_operator c)

unfoldable pub all_ordinary : Text → Bool
all_ordinary [] = true
all_ordinary (c ∷ t) = ordinary c && all_ordinary t

-- The text without the spaces behind a space, with the flag for a space in front of it; and the
-- flag behind it.
unfoldable pub squeeze : Bool → Text → Text
squeeze f [] = []
squeeze f (c ∷ t) =
    let skipped = squeeze f t in
    let kept = c ∷ squeeze (c == 32) t in if c == 32 && f then skipped else kept

unfoldable pub spaced : Bool → Text → Bool
spaced f [] = f
spaced f (c ∷ t) =
    let skipped = spaced f t in
    let kept = spaced (c == 32) t in if c == 32 && f then skipped else kept

-- The state outside of quotes, with no keyword found.
abbrev pub tokens_at : List Text → Text → ℕ → ℕ → Bool → Tokens
tokens_at params param size n f = record {
  params = params;
  param = param;
  size = size;
  char_count = n;
  space_encountered = f;
  q_st = false;
  ploc = none;
  temp = [];
}

find_keyword-none :
    (params : List Text) (param : Text) (size n : ℕ) (f : Bool)
    → NoKeyword param
    → find_keyword (tokens_at params param size n f) ≡ tokens_at params param size n f
find_keyword-none params param size n f k = rw (k.no_if, k.no_then, k.no_else, k.no_fi) refl

-- An ordinary byte: skipped, or stored.
char_skipped :
    (c : ℕ) (params : List Text) (param : Text) (size n : ℕ) (f : Bool)
    → ordinary c ≡ true
    → (c == 32 && f) ≡ true
    → parse_char c (tokens_at params param size n f) ≡ done (tokens_at params param size n f)
unfolding parse_char
char_skipped c params param size n f ord skip =
    let (q, op) = and-split {a = not (c == 34)} {b = not (is_operator c)} ord in
    rw (not-true q, not-true op, skip) refl

char_stored :
    (c : ℕ) (params : List Text) (param : Text) (size n : ℕ) (f : Bool)
    → ordinary c ≡ true
    → (c == 32 && f) ≡ false
    → length param + 1 < size
    → NoKeyword (param ++ (c ∷ []))
    → parse_char c (tokens_at params param size n f)
      ≡ done (tokens_at params (param ++ (c ∷ [])) size (n + 1) (c == 32))
unfolding parse_char
char_stored c params param size n f ord kept room k =
    let (q, op) = and-split {a = not (c == 34)} {b = not (is_operator c)} ord in
    rw
      (
        not-true q,
        not-true op,
        kept,
        lt→ltb (length param + 1) size room,
        find_keyword-none params (param ++ (c ∷ [])) size (n + 1) (c == 32) k,
      )
      refl

squeeze_nil : (f : Bool) → squeeze f [] ≡ []
unfolding squeeze
squeeze_nil f = refl

spaced_nil : (f : Bool) → spaced f [] ≡ f
unfolding spaced
spaced_nil f = refl

squeeze_skip :
    (f : Bool) (c : ℕ) (t : Text) → (c == 32 && f) ≡ true → squeeze f (c ∷ t) ≡ squeeze f t
unfolding squeeze
squeeze_skip f c t skip = if_true _ _ skip

squeeze_keep :
    (f : Bool) (c : ℕ) (t : Text)
    → (c == 32 && f) ≡ false
    → squeeze f (c ∷ t) ≡ c ∷ squeeze (c == 32) t
unfolding squeeze
squeeze_keep f c t kept = if_false _ _ kept

spaced_skip : (f : Bool) (c : ℕ) (t : Text) → (c == 32 && f) ≡ true → spaced f (c ∷ t) ≡ spaced f t
unfolding spaced
spaced_skip f c t skip = if_true _ _ skip

spaced_keep :
    (f : Bool) (c : ℕ) (t : Text) → (c == 32 && f) ≡ false → spaced f (c ∷ t) ≡ spaced (c == 32) t
unfolding spaced
spaced_keep f c t kept = if_false _ _ kept

-- A text of ordinary bytes: with the count behind it.
abbrev pub Reads : Text → Text → List Text → Text → ℕ → ℕ → Bool → Type 0
Reads t rest params param size n f =
    (m : ℕ) × (m ≡ n + length (squeeze f t))
    × (parse_chars (t ++ rest) (tokens_at params param size n f)
        ≡ parse_chars rest (tokens_at params (param ++ squeeze f t) size m (spaced f t)))

read_kept :
    (c : ℕ) (t rest : Text) (params : List Text) (param : Text) (size n : ℕ) (f : Bool)
    → (c == 32 && f) ≡ false
    → parse_char c (tokens_at params param size n f)
      ≡ done (tokens_at params (param ++ (c ∷ [])) size (n + 1) (c == 32))
    → Reads t rest params (param ++ (c ∷ [])) size (n + 1) (c == 32)
    → Reads (c ∷ t) rest params param size n f
unfolding parse_chars
read_kept c t rest params param size n f kept stored (m, count, run) = (
  m,
  omega (arith, count, ap length (squeeze_keep f c t kept)),
  rw (stored, squeeze_keep f c t kept, spaced_keep f c t kept)
      (run
        ∙ ap (λ u. parse_chars rest (tokens_at params u size m (spaced (c == 32) t)))
            (append_assoc param (c ∷ []) (squeeze (c == 32) t))),
)

pub parse_text :
    (t rest : Text) (params : List Text) (param : Text) (size n : ℕ) (f : Bool)
    → all_ordinary t ≡ true
    → length param + length (squeeze f t) < size
    → NoKeyword (param ++ squeeze f t)
    → Reads t rest params param size n f
unfolding parse_chars all_ordinary
parse_text [] rest params param size n f ord room k = (
  n,
  omega (arith, ap length (squeeze_nil f)),
  rw (squeeze_nil f, append-nil param, spaced_nil f) refl,
)
parse_text (c ∷ t) rest params param size n f ord room k =
    let (first, ord') = and-split {a = ordinary c} {b = all_ordinary t} ord in
    elim (Bool-cases (c == 32 && f)) [
      | inl skip ↦
          let text = squeeze_skip f c t skip in
          let (m, count, run) =
            parse_text t rest params param size n f ord'
              (subst (λ u. length param + length u < size) text room)
              (subst (λ u. NoKeyword (param ++ u)) text k) in
          (
            m,
            count ∙ ap (λ u. n + length u) (sym text),
            rw (char_skipped c params param size n f first skip, text, spaced_skip f c t skip) run,
          )
      | inr kept ↦
          let text = squeeze_keep f c t kept in
          let more : length param + suc (length (squeeze (c == 32) t)) < size =
            subst (λ u. length param + length u < size) text room in
          let k' : NoKeyword ((param ++ (c ∷ [])) ++ squeeze (c == 32) t) =
            subst NoKeyword (sym (append_assoc param (c ∷ []) (squeeze (c == 32) t)))
              (subst (λ u. NoKeyword (param ++ u)) text k) in
          read_kept c t rest params param size n f kept
            (char_stored c params param size n f first kept (omega (arith, more))
              (NoKeyword-front (param ++ (c ∷ [])) (squeeze (c == 32) t) k'))
            (parse_text t rest params (param ++ (c ∷ [])) size (n + 1) (c == 32) ord'
              (omega (arith, more, length-append param (c ∷ []))) k')
    ]
