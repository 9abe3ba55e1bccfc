-- ===== src/Scratch/Tests.antt =====
-- The menu of scratch/assoc_ar at a concrete input.
use cs551os.Prelude.{◌≡◌, refl, none, List, [], ◌∷◌, length, done, ◌>>=◌, arith}
use cs551os.Shell.Assoc.{String, init}
use cs551os.Shell.Assoc.Refine.{add_all}
use cs551os.Scratch.{menu}
use cs551os.Scratch.Laws.{
  Request, set_value, get_value, AllRequests, is_line, all_typed, settings_of, answers, menu_lem,
}

-- "ab" and "ba", which have the same hash, and a value.
abbrev ab : String
ab = 97 ∷ 98 ∷ []

abbrev ba : String
ba = 98 ∷ 97 ∷ []

abbrev ls : String
ls = 108 ∷ 115 ∷ []

abbrev get_choice : String
get_choice = 50 ∷ []

abbrev requests : List Request
requests =
    set_value ab ls ∷ get_value get_choice ab ∷ get_value get_choice ba ∷ set_value ba ab ∷ []

requests_all : AllRequests requests
unfolding AllRequests is_line
requests_all = (
  ((refl, omega arith), (refl, omega arith)),
  (
    ((refl, omega arith), (refl, omega arith), refl),
    (
      ((refl, omega arith), (refl, omega arith), refl),
      (((refl, omega arith), (refl, omega arith)), tt),
    ),
  ),
)

menu_lem_example :
    menu (length requests) (init (λ i. []) (λ i. [])) (all_typed requests (50 ∷ [])) ≡ (do
      ar ← add_all (init (λ i. []) (λ i. [])) (settings_of requests)
      done (answers (λ key. none) requests, ar, 50 ∷ []))
menu_lem_example = menu_lem (λ i. []) (λ i. []) requests (50 ∷ []) requests_all
