-- ===== src/Scratch/Laws.antt =====
-- The menu of scratch/assoc_ar answers as a dictionary does.
use cs551os.Prelude.{
  ℕ, zero, suc, ◌+◌, ◌-◌, ◌<◌, ◌≡◌, ◌∙◌, refl, ap, Bool, true, false, ◌&&◌, not, Option, none, some,
  List, [], ◌∷◌, ◌++◌, ◌==◌, length, length-append, set, if◌then◌else◌, Run, done, fault,
  out_of_fuel, ◌>>=◌, Run-cases, inl, inr, arith,
}
use cs551os.Lines.{Text, newline}
use cs551os.Shell.Assoc.{String, AssocAr, str_eq, init, add, get}
use cs551os.Shell.Assoc.Laws.{Ok, init-Ok, get-absent}
use cs551os.Shell.Assoc.Refine.{add_all, setting, add-Added, setting-add}
use cs551os.Scratch.{
  c_str, read_chars, read_command, Printed, answer_of, set_choice, menu_turn, menu,
}

-- No newline and no 0 is in a line.
unfoldable pub is_line : Text → Bool
is_line [] = true
is_line (c ∷ cs) = not (c == newline) && (not (c == 0) && is_line cs)

abbrev pub IsLine : Text → Type 0
IsLine l = (is_line l ≡ true) × (length l < 256)

abbrev pub line_of : Text → Text → Text
line_of l rest = l ++ (newline ∷ rest)

read_chars-line :
    (l rest : Text) (room : ℕ)
    → is_line l ≡ true
    → length l < room
    → read_chars room (line_of l rest) ≡ done (l ++ (newline ∷ []), rest)
unfolding is_line read_chars
read_chars-line l rest zero plain lt = absurd (omega arith)
read_chars-line [] rest (suc room) plain lt = refl
read_chars-line (c ∷ l) rest (suc room) plain lt =
    let not_end : (c == newline) ≡ false = ground arith in
    let plain' : is_line l ≡ true = ground arith in
    rw (not_end, read_chars-line l rest room plain' (omega (arith, lt))) refl

c_str-line : (l : Text) → is_line l ≡ true → c_str (set (l ++ (newline ∷ [])) (length l) 0) ≡ l
unfolding is_line c_str
c_str-line [] plain = refl
c_str-line (c ∷ l) plain =
    let not_zero : (c == 0) ≡ false = ground arith in
    let plain' : is_line l ≡ true = ground arith in rw (not_zero, c_str-line l plain') refl

pub read_command-line : (l rest : Text) → IsLine l → read_command (line_of l rest) ≡ done (l, rest)
unfolding read_command
read_command-line l rest (plain, short) =
    let size : length (l ++ (newline ∷ [])) ≡ length l + 1 = length-append l (newline ∷ []) in
    let some_bytes : (length (l ++ (newline ∷ [])) == 0) ≡ false = ground (arith, size) in
    let last : length (l ++ (newline ∷ [])) - 1 ≡ length l = omega (arith, size) in
    rw (read_chars-line l rest 256 plain short, some_bytes, last, c_str-line l plain) refl

-- What is typed for one turn: a setting, or a question.
pub data Request : Type 0 where
  set_value : String → String → Request
  get_value : String → String → Request

abbrev pub IsRequest : Request → Type 0
IsRequest (set_value key val) = IsLine key × IsLine val
IsRequest (get_value choice key) = IsLine choice × IsLine key × (str_eq choice set_choice ≡ false)

unfoldable pub AllRequests : List Request → Type 0
AllRequests [] = Unit {0}
AllRequests (r ∷ rs) = IsRequest r × AllRequests rs

abbrev pub typed : Request → Text → Text
typed (set_value key val) rest = line_of set_choice (line_of key (line_of val rest))
typed (get_value choice key) rest = line_of choice (line_of key rest)

unfoldable pub all_typed : List Request → Text → Text
all_typed [] rest = rest
all_typed (r ∷ rs) rest = typed r (all_typed rs rest)

unfoldable pub settings_of : List Request → List (String × String)
settings_of [] = []
settings_of (set_value key val ∷ rs) = (key, val) ∷ settings_of rs
settings_of (get_value choice key ∷ rs) = settings_of rs

-- What a dictionary answers.
unfoldable pub answers : (String → Option String) → List Request → List Printed
answers d [] = []
answers d (set_value key val ∷ rs) =
    answer_of key (some val) ∷ answers (λ o. if str_eq o key then some val else d o) rs
answers d (get_value choice key ∷ rs) = answer_of key (d key) ∷ answers d rs

-- A setting, in a table whose `add` comes to `added`.
menu_turn-set :
    (ar : AssocAr) (key val : String) (rest : Text)
    → IsLine key
    → IsLine val
    → menu_turn ar (typed (set_value key val) rest)
      ≡ (do ar' ← add ar key val; done (answer_of key (get ar' key), ar', rest))
unfolding menu_turn is_line
menu_turn-set ar key val rest k v =
    rw
      (
        read_command-line set_choice (line_of key (line_of val rest)) (refl, omega arith),
        read_command-line key (line_of val rest) k,
        read_command-line val rest v,
      )
      refl

menu_turn-get :
    (ar : AssocAr) (choice key : String) (rest : Text)
    → IsRequest (get_value choice key)
    → menu_turn ar (typed (get_value choice key) rest) ≡ done (answer_of key (get ar key), ar, rest)
unfolding menu_turn
menu_turn-get ar choice key rest (c, k, differs) =
    rw (read_command-line choice (line_of key rest) c, read_command-line key rest k, differs) refl

abbrev answered : List Printed → Text → Run AssocAr → Run (List Printed × AssocAr × Text)
answered more rest m = do ar ← m; done (more, ar, rest)

answer_first :
    (a : Printed) (more : List Printed) (rest : Text) (m : Run AssocAr)
    → ◌>>=◌ {B = List Printed × AssocAr × Text}
        (answered more rest m)
        (λ r. done (a ∷ r.0, r.1, r.2))
      ≡ answered (a ∷ more) rest m
answer_first a more rest (done ar) = refl
answer_first a more rest fault = refl
answer_first a more rest out_of_fuel = refl

get-add :
    (ar ar' : AssocAr) (key val other : String) (d : String → Option String)
    → Ok ar
    → ((o : String) → get ar o ≡ d o)
    → add ar key val ≡ done ar'
    → get ar' other ≡ (if str_eq other key then some val else d other)
unfolding setting
get-add ar ar' key val other d ok same e =
    setting-add [] ar ar' key val other ok e
    ∙ ap (λ w. if str_eq other key then some val else w) (same other)

menu-answers :
    (rs : List Request) (ar : AssocAr) (d : String → Option String) (rest : Text)
    → Ok ar
    → ((o : String) → get ar o ≡ d o)
    → AllRequests rs
    → menu (length rs) ar (all_typed rs rest)
      ≡ answered (answers d rs) rest (add_all ar (settings_of rs))
unfolding menu all_typed settings_of answers AllRequests add_all
menu-answers [] ar d rest ok same all = refl
menu-answers (set_value key val ∷ rs) ar d rest ok same ((k, v), all) =
    elim (Run-cases (add ar key val)) [
      | inl faults ↦ rw (menu_turn-set ar key val (all_typed rs rest) k v, faults) refl
      | inr (inl runs_out) ↦ rw (menu_turn-set ar key val (all_typed rs rest) k v, runs_out) refl
      | inr (inr (ar', e)) ↦
          let added = add-Added ar ar' key val ok e in
          let d' : String → Option String = λ o. if str_eq o key then some val else d o in
          rw
            (
              menu_turn-set ar key val (all_typed rs rest) k v,
              e,
              added.new,
              menu-answers rs ar' d' rest added.ok (λ o. get-add ar ar' key val o d ok same e) all,
            )
            (answer_first (answer_of key (some val)) (answers d' rs) rest
              (add_all ar' (settings_of rs)))
    ]
menu-answers (get_value choice key ∷ rs) ar d rest ok same (r, all) =
    rw
      (
        menu_turn-get ar choice key (all_typed rs rest) r,
        same key,
        menu-answers rs ar d rest ok same all,
      )
      (answer_first (answer_of key (d key)) (answers d rs) rest (add_all ar (settings_of rs)))

-- For any settings and questions that are typed as lines of less than 256 bytes, whatever follows
-- them and whatever the memory held before: the menu answers each as a dictionary does that starts
-- empty and takes the settings one by one, and ends with the table that `add` makes of the
-- settings, if no `add` leaves the table; and it faults where one of them does.
pub menu_lem :
    (keys vals : ℕ → String) (rs : List Request) (rest : Text)
    → AllRequests rs
    → menu (length rs) (init keys vals) (all_typed rs rest) ≡ (do
      ar ← add_all (init keys vals) (settings_of rs)
      done (answers (λ key. none) rs, ar, rest))
unfolding init
menu_lem keys vals rs rest all =
    menu-answers rs (init keys vals) (λ key. none) rest (init-Ok keys vals)
      (λ key. get-absent (init keys vals) key refl) all
