-- ===== src/Shell/Input/Laws.antt =====
-- What the command that is read is, and what is left of a word when it is cleaned.
use cs551os.Prelude.{
  ℕ, suc, ◌+◌, ◌<◌, ◌≡◌, ◌∙◌, refl, ap, sym, true, false, List, [], ◌∷◌, ◌++◌, ◌==◌, length,
  length-append, if◌then◌else◌, some, get_elem?, take, map, done, fault, ◌>>=◌, arith, Bool-cases,
  inl, inr, lt→ltb, and-split, if_true, if_false, Bool, ◌&&◌,
}
use mathlib.Core.List.{append_assoc, append-nil}
use cs551os.Lines.{Text, newline}
use cs551os.Lines.Laws.{has_newline, plain_cons}
use cs551os.Shell.Input.{
  command_size, cut_last, read_bytes, read_command, blank, tab_to_space, drop_trailing,
  drop_leading, clean_cmd,
}

-- The end of a list.
module _ {ℓ} {A : Type ℓ} where
  take_all : (xs ys : List A) → take (length xs) (xs ++ ys) ≡ xs
  take_all [] ys = refl
  take_all (x ∷ xs) ys = ap (λ zs. x ∷ zs) (take_all xs ys)

  get_elem?-last : (xs : List A) (a : A) → get_elem? (xs ++ (a ∷ [])) (length xs) ≡ some a
  get_elem?-last [] a = refl
  get_elem?-last (x ∷ xs) a = get_elem?-last xs a

  length-snoc : (xs : List A) (a : A) → length (xs ++ (a ∷ [])) ≡ suc (length xs)
  length-snoc [] a = refl
  length-snoc (x ∷ xs) a = ap suc (length-snoc xs a)

cut_last-snoc : (cmd : Text) (c : ℕ) → cut_last (cmd ++ (c ∷ [])) ≡ some cmd
cut_last-snoc [] c = refl
cut_last-snoc (x ∷ cmd) c =
    ap some
      (ap (λ n. take n (x ∷ (cmd ++ (c ∷ [])))) (length-snoc cmd c) ∙ take_all (x ∷ cmd) (c ∷ []))

read_bytes_from :
    (l cmd rest : Text)
    → has_newline l ≡ false
    → length cmd + length l < command_size
    → read_bytes (l ++ (newline ∷ rest)) cmd ≡ done (cmd ++ l, rest)
unfolding read_bytes has_newline
read_bytes_from [] cmd rest plain short =
    rw (lt→ltb (length cmd) command_size (omega arith), cut_last-snoc cmd newline, append-nil cmd)
      refl
read_bytes_from (c ∷ l) cmd rest plain short =
    let (other, plain') = plain_cons c l plain in
    rw (lt→ltb (length cmd) command_size (omega arith), other)
      (read_bytes_from l (cmd ++ (c ∷ [])) rest plain' (omega (arith, length-append cmd (c ∷ [])))
        ∙ ap (λ t. done (t, rest)) (append_assoc cmd (c ∷ []) l))

-- A command of less than 256 bytes that ends with a newline is read as it is.
pub read_command_lem :
    (l rest : Text)
    → has_newline l ≡ false
    → length l < command_size
    → read_command (l ++ (newline ∷ rest)) ≡ done (l, rest)
unfolding read_command
read_command_lem l rest plain short = read_bytes_from l [] rest plain (omega (arith, short))

-- The string has blanks only.
unfoldable pub all_blank : Text → Bool
all_blank [] = true
all_blank (c ∷ s) = blank c && all_blank s

drop_trailing-snoc :
    (s : Text) (c : ℕ)
    → drop_trailing (length (s ++ (c ∷ []))) (s ++ (c ∷ []))
      ≡ (if blank c then drop_trailing (length s) s else done (s ++ (c ∷ [])))
unfolding drop_trailing
drop_trailing-snoc s c =
    ap (λ n. drop_trailing n (s ++ (c ∷ []))) (length-snoc s c)
    ∙ rw (get_elem?-last s c, take_all s (c ∷ [])) refl

drop_trailing-blanks :
    (s post : Text)
    → all_blank post ≡ true
    → drop_trailing (length (s ++ post)) (s ++ post) ≡ drop_trailing (length s) s
unfolding all_blank
drop_trailing-blanks s [] blanks = ap (λ t. drop_trailing (length t) t) (append-nil s)
drop_trailing-blanks s (c ∷ post) blanks =
    let (b, blanks') = and-split {a = blank c} {b = all_blank post} blanks in
    sym (ap (λ t. drop_trailing (length t) t) (append_assoc s (c ∷ []) post))
    ∙ (drop_trailing-blanks (s ++ (c ∷ [])) post blanks'
        ∙ (drop_trailing-snoc s c ∙ if_true (drop_trailing (length s) s) (done (s ++ (c ∷ []))) b))

drop_leading-blanks :
    (pre : Text) (c : ℕ) (s : Text)
    → all_blank pre ≡ true
    → blank c ≡ false
    → drop_leading (pre ++ (c ∷ s)) ≡ c ∷ s
unfolding drop_leading all_blank
drop_leading-blanks [] c s blanks other = rw other refl
drop_leading-blanks (b ∷ pre) c s blanks other =
    let (first, blanks') = and-split {a = blank b} {b = all_blank pre} blanks in
    rw first (drop_leading-blanks pre c s blanks' other)

blank-tab_to_space : (c : ℕ) → blank (tab_to_space c) ≡ blank c
blank-tab_to_space c = elim (Bool-cases (c == 9)) [ inl h ↦ ground arith | inr h ↦ rw h refl ]

all_blank-tab_to_space : (s : Text) → all_blank (map tab_to_space s) ≡ all_blank s
unfolding all_blank
all_blank-tab_to_space [] = refl
all_blank-tab_to_space (c ∷ s) = rw (blank-tab_to_space c, all_blank-tab_to_space s) refl

map-tab_to_space-append :
    (s t : Text) → map tab_to_space (s ++ t) ≡ map tab_to_space s ++ map tab_to_space t
map-tab_to_space-append [] t = refl
map-tab_to_space-append (c ∷ s) t = ap (λ u. tab_to_space c ∷ u) (map-tab_to_space-append s t)

length-tab_to_space : (s : Text) → length s ≡ length (map tab_to_space s)
length-tab_to_space [] = refl
length-tab_to_space (c ∷ s) = ap suc (length-tab_to_space s)

-- A core that starts with `c` and ends with `d`, neither of them blank.
drop_trailing-core :
    (s : Text) (d : ℕ) (post : Text)
    → blank d ≡ false
    → all_blank post ≡ true
    → drop_trailing (length ((s ++ (d ∷ [])) ++ post)) ((s ++ (d ∷ [])) ++ post)
      ≡ done (s ++ (d ∷ []))
drop_trailing-core s d post other blanks =
    drop_trailing-blanks (s ++ (d ∷ [])) post blanks
    ∙ (drop_trailing-snoc s d ∙ if_false (drop_trailing (length s) s) (done (s ++ (d ∷ []))) other)

-- The string without its tabs, as the second loop takes it.
untabbed :
    (pre t : Text) (d : ℕ) (post : Text)
    → map tab_to_space ((pre ++ (t ++ (d ∷ []))) ++ post)
      ≡ ((map tab_to_space (pre ++ t)) ++ (tab_to_space d ∷ [])) ++ map tab_to_space post
untabbed pre t d post =
    map-tab_to_space-append (pre ++ (t ++ (d ∷ []))) post
    ∙ ap (λ u. u ++ map tab_to_space post)
        (ap (map tab_to_space) (sym (append_assoc pre t (d ∷ [])))
          ∙ map-tab_to_space-append (pre ++ t) (d ∷ []))

-- From a string with a byte that is not blank, `cleanCmd` takes the blanks before the first such
-- byte and behind the last one, and turns the tabs between them into spaces.
pub clean_cmd_lem :
    (pre s t post : Text) (c d : ℕ)
    → all_blank pre ≡ true
    → blank c ≡ false
    → c ∷ s ≡ t ++ (d ∷ [])
    → blank d ≡ false
    → all_blank post ≡ true
    → clean_cmd ((pre ++ (c ∷ s)) ++ post) ≡ done (map tab_to_space (c ∷ s))
unfolding clean_cmd
clean_cmd_lem pre s t post c d blanks first core last blanks' =
    let whole = (pre ++ (c ∷ s)) ++ post in
    let kept = map tab_to_space (pre ++ t) ++ (tab_to_space d ∷ []) in
    let cut : map tab_to_space whole ≡ kept ++ map tab_to_space post =
      ap (λ u. map tab_to_space ((pre ++ u) ++ post)) core ∙ untabbed pre t d post in
    let same : kept ≡ map tab_to_space pre ++ (tab_to_space c ∷ map tab_to_space s) =
      sym (map-tab_to_space-append (pre ++ t) (d ∷ []))
      ∙ (ap (map tab_to_space) (append_assoc pre t (d ∷ []) ∙ ap (λ u. pre ++ u) (sym core))
          ∙ map-tab_to_space-append pre (c ∷ s)) in
    let e : drop_trailing (length whole) (map tab_to_space whole) ≡ done kept =
      ap (λ n. drop_trailing n (map tab_to_space whole)) (length-tab_to_space whole)
      ∙ (ap (λ u. drop_trailing (length u) u) cut
          ∙ drop_trailing-core (map tab_to_space (pre ++ t)) (tab_to_space d)
              (map tab_to_space post) (blank-tab_to_space d ∙ last)
              (all_blank-tab_to_space post ∙ blanks')) in
    ap (λ r. r >>= (λ u. done (drop_leading u))) e
    ∙ ap done (
        ap drop_leading same
        ∙ drop_leading-blanks (map tab_to_space pre) (tab_to_space c) (map tab_to_space s)
            (all_blank-tab_to_space pre ∙ blanks) (blank-tab_to_space c ∙ first))

-- A string of blanks only, the empty one too, makes `cleanCmd` read outside of it.
clean_cmd-blank : (s : Text) → all_blank s ≡ true → clean_cmd s ≡ fault
unfolding clean_cmd drop_trailing
clean_cmd-blank s blanks =
    let t = map tab_to_space s in
    let e : drop_trailing (length s) t ≡ fault =
      ap (λ n. drop_trailing n t) (length-tab_to_space s)
      ∙ drop_trailing-blanks [] t (all_blank-tab_to_space s ∙ blanks) in
    ap (λ r. r >>= (λ u. done (drop_leading u))) e
