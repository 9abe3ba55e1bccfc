-- ===== src/Shell/Tests.antt =====
-- The theorems about the shell at concrete inputs.
use cs551os.Prelude.{
  ◌+◌, ◌≤◌, length, false, ◌<◌, ◌≡◌, ◌↔◌, ◌⊎◌, refl, none, some, List, [], ◌∷◌, pos, minus_one, Run,
  done, arith,
}
use cs551os.Shell.Assoc.{
  String, AssocAr, init, find, add, add_main, add_found, add_overflow, get, get_hash, char_sum,
  max_ov_tbl_size,
}
use cs551os.Shell.Assoc.Laws.{init-Ok}
use cs551os.Shell.Assoc.Refine.{add_all, setting, add_all_lem, add_iff}
use cs551os.Shell.Split.{split, count_spaces}
use cs551os.Shell.Split.Laws.{concat, kept, split_lem}
use cs551os.Shell.Valid.{
  Check, fi_word, str_if, str_then, str_else, str_fi, check_words, check_word, pop_loop,
  first_check, validate_if_else_condition,
}
use cs551os.Shell.Valid.Grammar.{Cmd, simple, cond, words, height, validate-words}

-- "ab" and "ba", which have the same hash, and two values.
abbrev ab : String
ab = 97 ∷ 98 ∷ []

abbrev ba : String
ba = 98 ∷ 97 ∷ []

abbrev ls : String
ls = 108 ∷ 115 ∷ []

abbrev pwd : String
pwd = 112 ∷ 119 ∷ 100 ∷ []

abbrev settings : List (String × String)
settings = (ab, ls) ∷ (ba, pwd) ∷ (ab, pwd) ∷ []

abbrev empty_table : AssocAr
empty_table = init (λ i. []) (λ i. [])

abbrev table_of : Run AssocAr → AssocAr
table_of (done ar) = ar
table_of r = empty_table

abbrev table : AssocAr
table = table_of (add_all empty_table settings)

table_ok : add_all empty_table settings ≡ done table
unfolding add_all add add_main add_found add_overflow get_hash char_sum init find
table_ok = refl

add_all_lem_example : get table ba ≡ setting none settings ba
add_all_lem_example = add_all_lem (λ i. []) (λ i. []) settings table table_ok ba

abbrev one_entry : AssocAr
one_entry = table_of (add empty_table ab ls)

one_entry_ok : add empty_table ab ls ≡ done one_entry
unfolding add add_main get_hash char_sum init
one_entry_ok = refl

add_iff_example : ((ar' : AssocAr) × (add empty_table ab ls ≡ done ar')) ↔ (
    (empty_table.ov_tbl_size < max_ov_tbl_size)
    ⊎ ((empty_table.hit_idx (get_hash ab) ≡ minus_one)
        ⊎ ((val' : String) × (get empty_table ab ≡ some val'))))
add_iff_example =
    add_iff empty_table ab ls (init-Ok (λ i. []) (λ i. [])) (omega arith) (omega arith)

-- if ls then if pwd then ls else ls fi else pwd fi
abbrev nested : Cmd
nested =
    cond (simple ls []) (cond (simple pwd []) (simple ls []) (simple ls [])) (simple pwd (ls ∷ []))

nested-height : height nested < 1000
unfolding height
nested-height = omega arith

validate-words_example : validate_if_else_condition (words nested) ≡ done (pos 1)
validate-words_example =
    validate-words nested (((refl, tt), ((refl, tt), (refl, tt), (refl, tt)), (refl, (refl, tt))))
      (omega (arith, nested-height))

-- if ls then ls else ls fi
abbrev flat : List String
flat = str_if ∷ ls ∷ str_then ∷ ls ∷ str_else ∷ ls ∷ str_fi ∷ []

abbrev flat_end : Check
flat_end = record { stk = []; prev = fi_word; before = some fi_word }

flat_ok : check_words flat first_check ≡ done (some flat_end)
unfolding check_words check_word pop_loop
flat_ok = refl

-- ls "a b" c
abbrev line : String
line = 108 ∷ 115 ∷ 32 ∷ 34 ∷ 97 ∷ 32 ∷ 98 ∷ 34 ∷ 32 ∷ 99 ∷ []

split_lem_example :
    (ws : List String) × (split line ≡ done ws)
    × (length ws ≤ count_spaces line + 1)
    × (concat ws ≡ kept false line)
split_lem_example = split_lem line (omega arith)
