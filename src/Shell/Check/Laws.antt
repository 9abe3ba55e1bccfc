-- ===== src/Shell/Check/Laws.antt =====
-- Commands of one program, and their lengths.
use cs551os.Prelude.{◌≤◌, ◌≡◌, false, [], ◌∷◌, ◌==◌, length, none, Bool-cases, inl, inr, arith}
use cs551os.Lines.{Text}
use cs551os.Shell.Assoc.{AssocAr, str_eq, get}
use cs551os.Shell.Parse.{if_text}
use cs551os.Shell.Check.{
  first_word, options, is_known, first_char, is_space, cd_name, alias_name, set_name,
}

-- A command that is no word of the shell, no operator and no alias.
pub record Program (aliases : AssocAr) (word : Text) : Type 0 where
  pub no_alias : get aliases (first_word word) ≡ none
  pub not_if : str_eq (first_word word) if_text ≡ false
  pub not_known : is_known (first_word word) ≡ false
  pub not_redirect : (first_char word == 62) ≡ false
  pub not_pipe : (first_char word == 124) ≡ false
  pub not_equals : str_eq word (61 ∷ []) ≡ false
  pub not_background : (first_char word == 38) ≡ false
  pub not_alias_name : str_eq (first_word word) alias_name ≡ false
  pub not_set : str_eq (first_word word) set_name ≡ false
  pub not_cd : str_eq (first_word word) cd_name ≡ false

pub options-length : (word : Text) → length (options word) ≤ length word
unfolding options
options-length [] = omega arith
options-length (c ∷ word) = elim (Bool-cases (is_space c)) [
  | inl h ↦ ground arith
  | inr h ↦ rw h (omega (arith, options-length word))
]
