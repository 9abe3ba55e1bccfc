-- ===== src/Shell/Alias/Saved.antt =====
-- What a line of the file of aliases is parsed to: its value has no quotes.
use cs551os.Prelude.{
  ℕ, suc, ◌+◌, ◌<◌, ◌≡◌, ◌∙◌, refl, ap, sym, false, true, [], ◌∷◌, ◌++◌, length, length-append,
  some, done, Bool, arith,
}
use mathlib.Core.List.{append_assoc, append-nil}
use cs551os.Lines.{Text}
use cs551os.Shell.Input.{blank, clean_cmd}
use cs551os.Shell.Input.Laws.{clean_cmd_lem, all_blank}
use cs551os.Shell.Alias.{
  strtok, equals_sign, space_or_equals, parse_setting, setting_loop, parse_cmd,
}
use cs551os.Shell.Alias.Laws.{
  free_of, Simple, alias_word, is_tab, strtok-delim, strtok-end, strtok-none, unquote-name,
  untab_free, append-free,
}

-- The line without its end.
abbrev pub saved_line : Text → Text → Text
saved_line name value = alias_word ++ (32 ∷ (name ++ (61 ∷ value)))

-- A value of a saved line: it does not end with a blank.
pub record SavedValue (value : Text) : Type 0 where
  pub simple : Simple value
  pub front : Text
  pub last : ℕ
  pub ends : value ≡ front ++ (last ∷ [])
  pub no_blank : blank last ≡ false

strtok_all :
    (delim : ℕ → Bool) (t : Text)
    → 0 < length t
    → free_of delim t ≡ true
    → strtok delim t ≡ some (t, [])
strtok_all delim [] some_bytes free = absurd (omega arith)
strtok_all delim (c ∷ t) some_bytes free = strtok-end delim c t free

SavedValue-length : (value : Text) → SavedValue value → 0 < length value
SavedValue-length value v = omega (arith, ap length v.ends, length-append v.front (v.last ∷ []))

parse_setting-saved :
    (fuel c : ℕ) (name value : Text)
    → Simple (c ∷ name)
    → SavedValue value
    → parse_setting (suc (suc (suc fuel))) (saved_line (c ∷ name) value)
      ≡ done (alias_word ∷ ((c ∷ name) ∷ (value ∷ [])))
unfolding parse_setting setting_loop free_of
parse_setting-saved fuel c name value n v =
    rw
      (
        strtok-delim space_or_equals 97 (108 ∷ 105 ∷ 97 ∷ 115 ∷ []) 32 ((c ∷ name) ++ (61 ∷ value))
            refl refl,
        strtok-delim equals_sign c name 61 value n.no_equals refl,
        unquote-name (c ∷ name) n.no_quote,
        strtok_all equals_sign value (SavedValue-length value v) v.simple.no_equals,
        unquote-name value v.simple.no_quote,
        strtok-none equals_sign,
      )
      refl

saved_line-no_tab :
    (name value : Text)
    → free_of is_tab name ≡ true
    → free_of is_tab value ≡ true
    → free_of is_tab (saved_line name value) ≡ true
unfolding free_of
saved_line-no_tab name value n v = append-free is_tab name (61 ∷ value) n v

clean_cmd-saved :
    (name value : Text)
    → free_of is_tab name ≡ true
    → SavedValue value
    → clean_cmd (saved_line name value) ≡ done (saved_line name value)
unfolding all_blank
clean_cmd-saved name value n v =
    let front : Text = alias_word ++ (32 ∷ (name ++ (61 ∷ v.front))) in
    let ends : saved_line name value ≡ front ++ (v.last ∷ []) =
      ap (λ u. alias_word ++ (32 ∷ (name ++ (61 ∷ u)))) v.ends
      ∙ ap (λ u. alias_word ++ (32 ∷ u)) (sym (append_assoc name (61 ∷ v.front) (v.last ∷ []))) in
    ap clean_cmd (sym (append-nil (saved_line name value)))
    ∙ (clean_cmd_lem [] (108 ∷ 105 ∷ 97 ∷ 115 ∷ 32 ∷ (name ++ (61 ∷ value))) front [] 97 v.last refl
          refl ends v.no_blank refl
        ∙ ap done
            (untab_free (saved_line name value) (saved_line-no_tab name value n v.simple.no_tab)))

-- A saved line is parsed to "alias", the name and the value.
pub parse_cmd-saved :
    (c : ℕ) (name value : Text)
    → Simple (c ∷ name)
    → SavedValue value
    → parse_cmd (saved_line (c ∷ name) value) ≡ done (alias_word ∷ ((c ∷ name) ∷ (value ∷ [])))
unfolding parse_cmd cs551os.Shell.Parse.begins cs551os.Shell.Parse.strstr_from
parse_cmd-saved c name value n v =
    let k = length (32 ∷ ((c ∷ name) ++ (61 ∷ value))) + 3 in
    let fuel : length (saved_line (c ∷ name) value) + 1 ≡ suc (suc (suc k)) = omega arith in
    rw (clean_cmd-saved (c ∷ name) value n.no_tab v, fuel) (parse_setting-saved k c name value n v)
