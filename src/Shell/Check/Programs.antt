-- ===== src/Shell/Check/Programs.antt =====
-- What the turns of `validateCommand` make of programs and pipes.
use cs551os.Prelude.{
  ℕ, zero, suc, ◌+◌, ◌≤◌, ◌<◌, ◌≡◌, ◌∙◌, refl, ap, sym, true, false, Bool, List, [], ◌∷◌, ◌++◌,
  ◌==◌, ltb, ◌||◌, length, length-append, none, some, set, get_elem?, done, if◌then◌else◌,
  Bool-cases, inl, inr, arith, lt→ltb,
}
use mathlib.Core.List.{append_assoc}
use cs551os.Lines.{Text}
use cs551os.Shell.Assoc.{AssocAr, get}
use cs551os.Shell.Parse.{if_text}
use cs551os.Shell.Check.{
  Verdict, valid_command, invalid_command, Checking, Turn, go_on, first_word, options, is_known,
  first_char, bin_path, usr_bin_path, validate_command, check_loop, check_turn, check_command,
  cd_name, alias_name, set_name, is_special,
}
use cs551os.Shell.Check.Laws.{Program, options-length}
use cs551os.Shell.Execute.{pipe_text}

-- A program is found, and the command with its path.
abbrev pub exists : (Text → Bool) → Text → Bool
exists access_ok word =
    access_ok (bin_path (first_word word)) || access_ok (usr_bin_path (first_word word))

abbrev pub located : (Text → Bool) → Text → Text
located access_ok word =
    if access_ok (bin_path (first_word word))
    then bin_path (first_word word) ++ options word
    else if access_ok (usr_bin_path (first_word word))
    then usr_bin_path (first_word word) ++ options word
    else word

set_front :
    (before : List Text) (c v : Text) (rest : List Text) (i : ℕ)
    → i ≡ length before
    → set (before ++ (c ∷ rest)) i v ≡ before ++ (v ∷ rest)
set_front [] c v rest zero e = refl
set_front [] c v rest (suc i) e = absurd (omega arith)
set_front (b ∷ before) c v rest zero e = absurd (omega arith)
set_front (b ∷ before) c v rest (suc i) e =
    ap (λ l. b ∷ l) (set_front before c v rest i (omega arith))

get_front :
    (before : List Text) (c : Text) (rest : List Text) (i : ℕ)
    → i ≡ length before
    → get_elem? (before ++ (c ∷ rest)) i ≡ some c
get_front [] c rest zero e = refl
get_front [] c rest (suc i) e = absurd (omega arith)
get_front (b ∷ before) c rest zero e = absurd (omega arith)
get_front (b ∷ before) c rest (suc i) e = get_front before c rest i (omega arith)

module _ (access_ok : Text → Bool) (aliases : AssocAr) where
  -- What a turn makes of a program that is looked for.
  abbrev pub after_program : List Text → Text → List Text → Checking
  after_program before word rest = record {
    found = exists access_ok word;
    usr_bin = usr_bin_path (first_word word);
    list = before ++ (located access_ok word ∷ rest);
  }

  pub check_turn-Program :
      (n i : ℕ) (found : Bool) (usr_bin : Text) (before rest : List Text) (word : Text)
      → i ≡ length before
      → Program aliases word
      → check_turn access_ok aliases n i
          (record { found = found; usr_bin = usr_bin; list = before ++ (word ∷ rest) })
        ≡ done (go_on (i + 1), after_program before word rest)
  unfolding check_turn
  check_turn-Program n i found usr_bin before rest word at p =
      let cmd = first_word word in
      let small = options-length word in
      let here = get_front before word rest i at in
      elim (Bool-cases (access_ok (bin_path cmd))) [
        | inl in_bin ↦
            let fits =
              lt→ltb (length (bin_path cmd) + length (options word))
                (length (usr_bin_path cmd) + length word + 2) (omega arith) in
            rw
              (
                here,
                p.no_alias,
                here,
                p.not_if,
                p.not_known,
                in_bin,
                p.not_alias_name,
                p.not_set,
                p.not_cd,
                fits,
                set_front before word (bin_path cmd ++ options word) rest i at,
              )
              refl
        | inr not_bin ↦ elim (Bool-cases (access_ok (usr_bin_path cmd))) [
          | inl in_usr ↦
              let fits =
                lt→ltb (length (usr_bin_path cmd) + length (options word))
                  (length (usr_bin_path cmd) + length word + 2) (omega arith) in
              rw
                (
                  here,
                  p.no_alias,
                  here,
                  p.not_if,
                  p.not_known,
                  not_bin,
                  in_usr,
                  p.not_alias_name,
                  p.not_set,
                  p.not_cd,
                  fits,
                  set_front before word (usr_bin_path cmd ++ options word) rest i at,
                )
                refl
          | inr not_usr ↦
              rw
                (
                  here, p.no_alias, here, p.not_if, p.not_known, not_bin, not_usr, p.not_redirect,
                  p.not_pipe, p.not_equals, p.not_background,
                )
                refl
        ]
      ]

  -- "|" is no alias and no program.
  pub record PipeFree : Type 0 where
    pub no_alias : get aliases pipe_text ≡ none
    pub not_bin : access_ok (bin_path pipe_text) ≡ false
    pub not_usr : access_ok (usr_bin_path pipe_text) ≡ false

  get_next :
      (before more : List Text) (c d : Text) (i : ℕ)
      → i ≡ length before
      → get_elem? more 0 ≡ some d
      → get_elem? (before ++ (c ∷ more)) (i + 1) ≡ some d
  get_next before [] c d i at next = absurd (ground arith)
  get_next before (e ∷ rest) c d i at next =
      ap (λ l. get_elem? l (i + 1)) (sym (append_assoc before (c ∷ []) (e ∷ rest)))
      ∙ (get_front (before ++ (c ∷ [])) e rest (i + 1)
            (omega (arith, at, length-append before (c ∷ [])))
          ∙ next)

  pub pipe_turn :
      (n i : ℕ) (found : Bool) (usr_bin : Text) (before more : List Text) (d : Text)
      → PipeFree
      → i ≡ length before
      → 0 < i
      → i + 1 < n
      → get_elem? more 0 ≡ some d
      → is_special (first_char d) ≡ false
      → check_turn access_ok aliases n i
          (record { found = found; usr_bin = usr_bin; list = before ++ (pipe_text ∷ more) })
        ≡ done (
          go_on (i + 1),
          record {
            found = true;
            usr_bin = usr_bin_path pipe_text;
            list = before ++ (pipe_text ∷ more);
          },
        )
  unfolding check_turn cs551os.Shell.Alias.strtok cs551os.Shell.Alias.skip cs551os.Shell.Alias.up_to
      cs551os.Shell.Check.one_of cs551os.Shell.Parse.begins
  pipe_turn n i found usr_bin before more d free at pos_i inside next plain =
      let here = get_front before pipe_text more i at in
      let not_first : (i == 0) ≡ false = ground arith in
      let not_last : (i + 1 == n) ≡ false = ground arith in
      rw
        (
          here,
          free.no_alias,
          here,
          free.not_bin,
          free.not_usr,
          not_last,
          not_first,
          get_next before more pipe_text d i at next,
          plain,
        )
        refl

  pub loop_end :
      (turns n i : ℕ) (s : Checking)
      → n ≤ i
      → check_loop access_ok aliases turns n i s
        ≡ done (if s.found then valid_command else invalid_command, s.list)
  unfolding check_loop
  loop_end zero n i s le = refl
  loop_end (suc turns) n i s le = let over : ltb i n ≡ false = ground arith in rw over refl

  -- The programs of a pipeline; behind a pipe none begins with "=" either.
  abbrev pub Programs : Text → List Text → Type 0
  Programs c [] = Program aliases c
  Programs c (d ∷ ds) = Program aliases c × (is_special (first_char d) ≡ false) × Programs d ds

  -- A turn, and the rest of the loop.
  pub loop_turn :
      (turns n i : ℕ) (s s' : Checking)
      → i < n
      → check_turn access_ok aliases n i s ≡ done (go_on (i + 1), s')
      → check_loop access_ok aliases (suc turns) n i s
        ≡ check_loop access_ok aliases turns n (i + 1) s'
  unfolding check_loop
  loop_turn turns n i s s' lt turned = rw (lt→ltb i n lt, turned) refl
