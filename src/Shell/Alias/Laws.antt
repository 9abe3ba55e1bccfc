-- ===== src/Shell/Alias/Laws.antt =====
-- What an alias or a setting is parsed to.
use cs551os.Prelude.{
  ℕ, suc, ◌+◌, ◌≡◌, ◌∙◌, refl, ap, sym, Bool, true, false, not, ◌&&◌, [], ◌∷◌, ◌++◌, ◌==◌, length,
  none, some, take, map, ◌-◌, done, Bool-cases, inl, inr, if_false, arith, length-append, and-split,
  not-true,
}
use mathlib.Core.List.{append_assoc, append-nil}
use cs551os.Lines.{Text}
use cs551os.Shell.Input.{tab_to_space, clean_cmd}
use cs551os.Shell.Input.Laws.{clean_cmd_lem, all_blank}
use cs551os.Shell.Alias.{
  strtok, skip, up_to, equals_sign, space_or_equals, has_quote, unquote, setting_loop,
  parse_setting, parse_cmd,
}

-- No byte of the string is a delimiter, or a quote.
unfoldable pub free_of : (ℕ → Bool) → Text → Bool
free_of delim [] = true
free_of delim (c ∷ s) = not (delim c) && free_of delim s

up_to-delim :
    (delim : ℕ → Bool) (t : Text) (d : ℕ) (rest : Text)
    → free_of delim t ≡ true
    → delim d ≡ true
    → up_to delim (t ++ (d ∷ rest)) ≡ (t, rest)
unfolding up_to free_of
up_to-delim delim [] d rest free is_delim = rw is_delim refl
up_to-delim delim (c ∷ t) d rest free is_delim =
    let (first, free') = and-split {a = not (delim c)} {b = free_of delim t} free in
    rw (not-true first, up_to-delim delim t d rest free' is_delim) refl

up_to-end : (delim : ℕ → Bool) (t : Text) → free_of delim t ≡ true → up_to delim t ≡ (t, [])
unfolding up_to free_of
up_to-end delim [] free = refl
up_to-end delim (c ∷ t) free =
    let (first, free') = and-split {a = not (delim c)} {b = free_of delim t} free in
    rw (not-true first, up_to-end delim t free') refl

-- A token that is not empty.
pub strtok-delim :
    (delim : ℕ → Bool) (c : ℕ) (t : Text) (d : ℕ) (rest : Text)
    → free_of delim (c ∷ t) ≡ true
    → delim d ≡ true
    → strtok delim ((c ∷ t) ++ (d ∷ rest)) ≡ some (c ∷ t, rest)
unfolding strtok skip free_of
strtok-delim delim c t d rest free is_delim =
    let (first, free') = and-split {a = not (delim c)} {b = free_of delim t} free in
    rw (not-true first) (ap some (up_to-delim delim (c ∷ t) d rest free is_delim))

pub strtok-end :
    (delim : ℕ → Bool) (c : ℕ) (t : Text)
    → free_of delim (c ∷ t) ≡ true
    → strtok delim (c ∷ t) ≡ some (c ∷ t, [])
unfolding strtok skip free_of
strtok-end delim c t free =
    let (first, free') = and-split {a = not (delim c)} {b = free_of delim t} free in
    rw (not-true first) (ap some (up_to-end delim (c ∷ t) free))

abbrev pub is_quote : ℕ → Bool
is_quote c = c == 34

has_quote-free : (t : Text) → free_of is_quote t ≡ true → has_quote t ≡ false
unfolding has_quote free_of
has_quote-free [] free = refl
has_quote-free (c ∷ t) free =
    let (first, free') = and-split {a = not (is_quote c)} {b = free_of is_quote t} free in
    rw (not-true first) (has_quote-free t free')

has_quote-last : (t : Text) → has_quote (t ++ (34 ∷ [])) ≡ true
unfolding has_quote
has_quote-last [] = refl
has_quote-last (c ∷ t) = elim (Bool-cases (c == 34)) [
  | inl h ↦ rw h refl
  | inr h ↦ rw h (has_quote-last t)
]

pub strtok-none : (delim : ℕ → Bool) → strtok delim [] ≡ none
unfolding strtok skip
strtok-none delim = refl

length-snoc : (t : Text) (c : ℕ) → length (t ++ (c ∷ [])) - 1 ≡ length t
length-snoc t c = omega (arith, length-append t (c ∷ []))

take_all : (xs ys : Text) → take (length xs) (xs ++ ys) ≡ xs
take_all [] ys = refl
take_all (x ∷ xs) ys = ap (λ zs. x ∷ zs) (take_all xs ys)

pub unquote-name : (t : Text) → free_of is_quote t ≡ true → unquote t ≡ t
unquote-name t free = if_false _ t (has_quote-free t free)

unquote-quoted : (t : Text) → unquote (34 ∷ (t ++ (34 ∷ []))) ≡ t
unfolding has_quote
unquote-quoted t =
    rw (has_quote-last t)
      (ap (λ n. take n (t ++ (34 ∷ []))) (length-snoc t 34) ∙ take_all t (34 ∷ []))

abbrev pub is_tab : ℕ → Bool
is_tab c = c == 9

pub untab_free : (t : Text) → free_of is_tab t ≡ true → map tab_to_space t ≡ t
unfolding free_of
untab_free [] free = refl
untab_free (c ∷ t) free =
    let (first, free') = and-split {a = not (is_tab c)} {b = free_of is_tab t} free in
    rw (not-true first) (ap (λ u. c ∷ u) (untab_free t free'))

-- A name or a value: no tab, no quote and no equals sign.
pub record Simple (t : Text) : Type 0 where
  pub no_tab : free_of is_tab t ≡ true
  pub no_quote : free_of is_quote t ≡ true
  pub no_equals : free_of equals_sign t ≡ true

-- "alias".
abbrev pub alias_word : Text
alias_word = 97 ∷ 108 ∷ 105 ∷ 97 ∷ 115 ∷ []

-- The quoted value.
abbrev pub quoted : Text → Text
quoted value = 34 ∷ (value ++ (34 ∷ []))

quoted-no_equals :
    (value : Text) → free_of equals_sign value ≡ true → free_of equals_sign (quoted value) ≡ true
unfolding free_of
quoted-no_equals [] free = refl
quoted-no_equals (c ∷ value) free =
    let (first, free') = and-split {a = not (equals_sign c)} {b = free_of equals_sign value} free in
    rw (not-true first) (quoted-no_equals value free')

parse_setting-alias :
    (fuel c : ℕ) (name value : Text)
    → Simple (c ∷ name)
    → Simple value
    → parse_setting
        (suc (suc (suc fuel)))
        (alias_word ++ (32 ∷ ((c ∷ name) ++ (61 ∷ quoted value))))
      ≡ done (alias_word ∷ ((c ∷ name) ∷ (value ∷ [])))
unfolding parse_setting setting_loop free_of
parse_setting-alias fuel c name value n v =
    rw
      (
        strtok-delim space_or_equals 97 (108 ∷ 105 ∷ 97 ∷ 115 ∷ []) 32
            ((c ∷ name) ++ (61 ∷ quoted value)) refl refl,
        strtok-delim equals_sign c name 61 (quoted value) n.no_equals refl,
        unquote-name (c ∷ name) n.no_quote,
        strtok-end equals_sign 34 (value ++ (34 ∷ [])) (quoted-no_equals value v.no_equals),
        unquote-quoted value,
        strtok-none equals_sign,
      )
      refl

-- The command.
abbrev pub alias_command : Text → Text → Text
alias_command name value = alias_word ++ (32 ∷ (name ++ (61 ∷ quoted value)))

pub append-free :
    (delim : ℕ → Bool) (s t : Text)
    → free_of delim s ≡ true
    → free_of delim t ≡ true
    → free_of delim (s ++ t) ≡ true
unfolding free_of
append-free delim [] t free free' = free'
append-free delim (c ∷ s) t free free' =
    let (first, rest) = and-split {a = not (delim c)} {b = free_of delim s} free in
    rw (not-true first) (append-free delim s t rest free')

alias_command-no_tab :
    (name value : Text)
    → free_of is_tab name ≡ true
    → free_of is_tab value ≡ true
    → free_of is_tab (alias_command name value) ≡ true
unfolding free_of
alias_command-no_tab name value n v =
    append-free is_tab name (61 ∷ quoted value) n (append-free is_tab value (34 ∷ []) v refl)

-- The command ends with its quote, so no byte is cleaned away.
clean_cmd-alias :
    (name value : Text)
    → free_of is_tab name ≡ true
    → free_of is_tab value ≡ true
    → clean_cmd (alias_command name value) ≡ done (alias_command name value)
unfolding all_blank
clean_cmd-alias name value n v =
    let front : Text = alias_word ++ (32 ∷ (name ++ (61 ∷ (34 ∷ value)))) in
    let ends : alias_command name value ≡ front ++ (34 ∷ []) =
      ap (λ u. alias_word ++ (32 ∷ u)) (sym (append_assoc name (61 ∷ (34 ∷ value)) (34 ∷ []))) in
    ap clean_cmd (sym (append-nil (alias_command name value)))
    ∙ (clean_cmd_lem [] (108 ∷ 105 ∷ 97 ∷ 115 ∷ 32 ∷ (name ++ (61 ∷ quoted value))) front [] 97 34
          refl refl ends refl refl
        ∙ ap done (untab_free (alias_command name value) (alias_command-no_tab name value n v)))

-- An alias command with the value in quotes, and with no tab, quote or equals sign in the name,
-- which is not empty, or the value, is parsed to "alias", the name and the value without the
-- quotes.
pub parse_cmd-alias :
    (c : ℕ) (name value : Text)
    → Simple (c ∷ name)
    → Simple value
    → parse_cmd (alias_command (c ∷ name) value) ≡ done (alias_word ∷ ((c ∷ name) ∷ (value ∷ [])))
unfolding parse_cmd cs551os.Shell.Parse.begins cs551os.Shell.Parse.strstr_from
parse_cmd-alias c name value n v =
    let k = length (32 ∷ ((c ∷ name) ++ (61 ∷ quoted value))) + 3 in
    let fuel : length (alias_command (c ∷ name) value) + 1 ≡ suc (suc (suc k)) = omega arith in
    rw (clean_cmd-alias (c ∷ name) value n.no_tab v.no_tab, fuel)
      (parse_setting-alias k c name value n v)
