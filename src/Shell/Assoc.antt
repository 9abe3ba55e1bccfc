-- ===== src/Shell/Assoc.antt =====
-- The table of aliases and variables, prj_1/assoc_ar.c.
pub mod Find
pub mod Laws
pub mod Add
pub mod Grow
pub mod Refine
pub mod Stored
use mathlib.Core.Option
use cs551os.Prelude.{
  ℕ, zero, suc, ◌+◌, ◌/◌, ◌%◌, Bool, true, false, ◌&&◌, Option, none, some, List, [], ◌∷◌, ◌++◌,
  map, ltb, ◌==◌, length, if◌then◌else◌, ℤ, pos, negsuc, minus_one, eq_int, Run, done, fault, ◌>>=◌,
}

-- A string is the list of its bytes before the terminator.
abbrev pub String : Type 0
String = List ℕ

-- `strcmp(a, b) == 0`
abbrev pub str_eq : String → String → Bool
str_eq [] [] = true
str_eq [] (y ∷ ys) = false
str_eq (x ∷ xs) [] = false
str_eq (x ∷ xs) (y ∷ ys) = (x == y) && str_eq xs ys

abbrev pub max_cur_size : ℕ
max_cur_size = 256

abbrev pub max_ov_tbl_size : ℕ
max_ov_tbl_size = 8

-- `struct assoc_ar`. The tables have 264 entries of 256 bytes, and `hit_idx` has 256; the entries
-- behind those are not used: every access has its bounds written out where it can leave them.
pub record AssocAr : Type 0 where
  pub cur_size : ℕ
  pub ov_tbl_size : ℕ
  pub key_tbl : ℕ → String
  pub val_tbl : ℕ → String
  pub hit_idx : ℕ → ℤ

abbrev pub update {ℓ} : {A : Type ℓ} → (ℕ → A) → ℕ → A → ℕ → A
update f i v j = if j == i then v else f j

-- The tables as `malloc` gives them, and all hits at -1.
unfoldable pub init : (keys vals : ℕ → String) → AssocAr
init keys vals = record {
  cur_size = 0;
  ov_tbl_size = 0;
  key_tbl = keys;
  val_tbl = vals;
  hit_idx = λ i. minus_one;
}

-- The sum of the signed characters, as a 32-bit number.
unfoldable pub char_sum : ℕ → String → ℕ
char_sum sum [] = sum
char_sum sum (c ∷ cs) = char_sum ((sum + (if ltb c 128 then c else c + 4294967040)) % 4294967296) cs

unfoldable pub get_hash : String → ℕ
get_hash p = let sum = char_sum 0 p in (sum % 256 + sum / 256 % 256) % 256

-- The search through the overflow table, with `n` entries left: where it breaks off, if it does.
unfoldable pub find : ℕ → ℕ → (ℕ → String) → String → Option ℕ
find zero i keys key = none
find (suc n) i keys key =
    let rest = find n (i + 1) keys key in if str_eq key (keys i) then some i else rest

abbrev pub overflow_of : AssocAr → String → Option ℕ
overflow_of ar key = find ar.ov_tbl_size max_cur_size ar.key_tbl key

-- `hit_idx[hash]++`
abbrev pub succ_int : ℤ → ℤ
succ_int (pos n) = pos (n + 1)
succ_int (negsuc zero) = pos 0
succ_int (negsuc (suc n)) = negsuc n

abbrev pub hit : ℕ → AssocAr → AssocAr
hit h ar = record ar { hit_idx = update ar.hit_idx h (succ_int (ar.hit_idx h)) }

-- `strcpy` into an entry, which has room for 255 bytes and the terminator.
abbrev pub put_key : ℕ → String → AssocAr → Run AssocAr
put_key i key ar =
    if ltb (length key) 256 then done (record ar { key_tbl = update ar.key_tbl i key }) else fault

abbrev pub put_val : ℕ → String → AssocAr → Run AssocAr
put_val i val ar =
    if ltb (length val) 256 then done (record ar { val_tbl = update ar.val_tbl i val }) else fault

-- A new entry behind the overflow table: behind both tables once that is full.
unfoldable pub add_overflow : String → String → AssocAr → Run AssocAr
add_overflow key val ar =
    if ltb ar.ov_tbl_size max_ov_tbl_size
    then (do
      ar₁ ← put_key (max_cur_size + ar.ov_tbl_size) key ar
      ar₂ ← put_val (max_cur_size + ar.ov_tbl_size) val ar₁
      done (record ar₂ { ov_tbl_size = ar.ov_tbl_size + 1 }))
    else fault

unfoldable pub add_found : Option ℕ → String → String → AssocAr → Run AssocAr
add_found (some i) key val ar = put_val i val ar
add_found none key val ar = add_overflow key val ar

-- A new entry of the main table.
unfoldable pub add_main : ℕ → String → String → AssocAr → Run AssocAr
add_main h key val ar = do
  ar₁ ← put_key h key ar
  ar₂ ← put_val h val ar₁
  done (record ar₂ { cur_size = ar.cur_size + 1 })

unfoldable pub add : AssocAr → String → String → Run AssocAr
add ar key val = do
  let h = get_hash key
  ar' ←
      (if eq_int (ar.hit_idx h) minus_one
        then add_main h key val ar
        else if str_eq key (ar.key_tbl h)
        then put_val h val ar
        else add_found (overflow_of ar key) key val ar)
  done (hit h ar')

unfoldable pub get : AssocAr → String → Option String
get ar key =
    let h = get_hash key in
    if eq_int (ar.hit_idx h) minus_one
    then none
    else if str_eq key (ar.key_tbl h)
    then some (ar.val_tbl h)
    else Option.map ar.val_tbl (overflow_of ar key)

-- The bytes of "alias ".
abbrev alias_word : String
alias_word = 97 ∷ 108 ∷ 105 ∷ 97 ∷ 115 ∷ 32 ∷ []

abbrev pub alias_line : String → String → String
alias_line key val = alias_word ++ (key ++ (61 ∷ (val ++ (10 ∷ []))))

-- The lines that `write_alias` writes for the entries from `i` on, `n` of them.
unfoldable pub write_loop : ℕ → ℕ → AssocAr → List String
write_loop zero i ar = []
write_loop (suc n) i ar =
    let rest = write_loop n (i + 1) ar in
    if eq_int (ar.hit_idx i) minus_one
    then rest
    else alias_line (ar.key_tbl i) (ar.val_tbl i) ∷ rest

unfoldable pub write_alias : AssocAr → List String
write_alias ar = write_loop max_cur_size 0 ar
