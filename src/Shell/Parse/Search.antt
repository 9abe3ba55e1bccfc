-- ===== src/Shell/Parse/Search.antt =====
-- The search for keywords in a parameter.
use cs551os.Prelude.{
  ℕ, ◌+◌, ◌≡◌, ◌∙◌, refl, sym, true, [], ◌∷◌, ◌++◌, ◌==◌, none, some, Bool-cases, inl, inr, if_true,
  if_false, and-split, option_clash,
}
use cs551os.Lines.{Text}
use cs551os.Shell.Parse.{begins, strstr_from, strstr, if_text, then_text, else_text, fi_text}

begins-append : (needle p q : Text) → begins needle p ≡ true → begins needle (p ++ q) ≡ true
unfolding begins
begins-append [] p q h = refl
begins-append (n ∷ needle) [] q h = absurd cc
begins-append (n ∷ needle) (c ∷ p) q h =
    let (first, rest) = and-split {a = n == c} {b = begins needle p} h in
    rw (first, begins-append needle p q rest) refl

-- What is not in a string is not in its front.
strstr_front :
    (i : ℕ) (p q needle : Text)
    → strstr_from i (p ++ q) needle ≡ none
    → strstr_from i p needle ≡ none
unfolding strstr_from
strstr_front i [] q needle h = refl
strstr_front i (c ∷ p) q needle h = elim (Bool-cases (begins needle (c ∷ p))) [
  | inl b ↦ absurd (option_clash (sym (if_true (some i) _ (begins-append needle (c ∷ p) q b)) ∙ h))
  | inr b ↦ elim (Bool-cases (begins needle (c ∷ (p ++ q)))) [
    | inl b' ↦ absurd (option_clash (sym (if_true (some i) _ b') ∙ h))
    | inr b' ↦ rw b (strstr_front (i + 1) p q needle (sym (if_false (some i) _ b') ∙ h))
  ]
]

-- None of the keywords is found.
pub record NoKeyword (p : Text) : Type 0 where
  pub no_if : strstr p (if_text ++ (32 ∷ [])) ≡ none
  pub no_then : strstr p (32 ∷ (then_text ++ (32 ∷ []))) ≡ none
  pub no_else : strstr p (32 ∷ (else_text ++ (32 ∷ []))) ≡ none
  pub no_fi : strstr p (32 ∷ fi_text) ≡ none

pub NoKeyword-front : (p q : Text) → NoKeyword (p ++ q) → NoKeyword p
NoKeyword-front p q n = record {
  no_if = strstr_front 0 p q (if_text ++ (32 ∷ [])) n.no_if;
  no_then = strstr_front 0 p q (32 ∷ (then_text ++ (32 ∷ []))) n.no_then;
  no_else = strstr_front 0 p q (32 ∷ (else_text ++ (32 ∷ []))) n.no_else;
  no_fi = strstr_front 0 p q (32 ∷ fi_text) n.no_fi;
}
