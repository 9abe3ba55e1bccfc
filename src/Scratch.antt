-- ===== src/Scratch.antt =====
-- The menu of scratch/assoc_ar/assoc_ar.c around the table; its `init`, `get_hash`, `add` and `get`
-- are those of prj_1/assoc_ar.c less the traces, and are not written a second time.
pub mod Laws
mod Tests
use cs551os.Prelude.{
  ℕ, zero, suc, ◌-◌, Option, none, some, List, [], ◌∷◌, ◌==◌, length, set, if◌then◌else◌, Run, done,
  fault, ◌>>=◌,
}
use cs551os.Lines.{Text, newline}
use cs551os.Shell.Assoc.{String, AssocAr, str_eq, add, get}

-- The bytes before the first 0.
unfoldable pub c_str : Text → String
c_str [] = []
c_str (c ∷ cs) = let rest = c_str cs in if c == 0 then [] else c ∷ rest

-- The bytes that `scanf("%c")` gives, up to a newline or the end of the input, in a buffer with
-- room for so many; and what is left of the input.
unfoldable pub read_chars : ℕ → Text → Run (Text × Text)
read_chars room [] = done ([], [])
read_chars zero (ch ∷ input) = fault
read_chars (suc room) (ch ∷ input) =
    let rest = (do r ← read_chars room input; done (ch ∷ r.0, r.1)) in
    if ch == newline then done (ch ∷ [], input) else rest

-- The last byte read is overwritten by the terminator: with none read, a byte in front of `cmd`.
unfoldable pub read_command : Text → Run (String × Text)
read_command input = do
  r ← read_chars 256 input
  if length r.0 == 0 then fault else done (c_str (set r.0 (length r.0 - 1) 0), r.1)

-- What is printed: a key and its value, or that the key has none.
pub data Printed : Type 0 where
  added_key : String → String → Printed
  could_not_get : String → Printed

abbrev pub answer_of : String → Option String → Printed
answer_of key none = could_not_get key
answer_of key (some val) = added_key key val

-- "1"
abbrev pub set_choice : String
set_choice = 49 ∷ []

-- One turn of `while(1)`.
unfoldable pub menu_turn : AssocAr → Text → Run (Printed × AssocAr × Text)
menu_turn ar input = do
  p ← read_command input
  key ← read_command p.1
  let set_value = (do
    val ← read_command key.1
    ar' ← add ar key.0 val.0
    done (answer_of key.0 (get ar' key.0), ar', val.1))
  if str_eq p.0 set_choice then set_value else done (answer_of key.0 (get ar key.0), ar, key.1)

-- The first so many turns.
unfoldable pub menu : ℕ → AssocAr → Text → Run (List Printed × AssocAr × Text)
menu zero ar input = done ([], ar, input)
menu (suc turns) ar input = do
  (a, ar', rest) ← menu_turn ar input
  (answers, ar₂, end) ← menu turns ar' rest
  done (a ∷ answers, ar₂, end)
