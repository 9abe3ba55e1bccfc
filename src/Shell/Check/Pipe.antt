-- ===== src/Shell/Check/Pipe.antt =====
-- What `validateCommand` makes of a pipeline.
use cs551os.Prelude.{
  ℕ, zero, suc, ◌+◌, ◌≤◌, ◌≡◌, ◌∙◌, refl, ap, sym, true, false, Bool, List, [], ◌∷◌, ◌++◌, ◌==◌,
  length, length-append, some, get_elem?, map, done, if◌then◌else◌, arith,
}
use mathlib.Core.List.{append_assoc}
use cs551os.Lines.{Text}
use cs551os.Shell.Assoc.{AssocAr}
use cs551os.Shell.Check.{
  valid_command, invalid_command, first_word, usr_bin_path, validate_command, check_loop,
}
use cs551os.Shell.Execute.{pipe_text}
use cs551os.Shell.Execute.Pipe.{stop, pipe_words, pipe_words-long}
use cs551os.Shell.Check.Programs.{
  exists, located, after_program, check_turn-Program, PipeFree, pipe_turn, loop_end, Programs,
  loop_turn,
}

abbrev pub last_of : Text → List Text → Text
last_of c [] = c
last_of c (d ∷ ds) = last_of d ds

pipe_words-head : (d : Text) (ds : List Text) → get_elem? (pipe_words d ds stop) 0 ≡ some d
pipe_words-head d [] = refl
pipe_words-head d (e ∷ ds) = refl

module _ (access_ok : Text → Bool) (aliases : AssocAr) (free : PipeFree access_ok aliases) where
  loop-pipe :
      (ds : List Text) (c : Text) (turns n i : ℕ) (found : Bool) (usr_bin : Text)
      (before : List Text)
      → i ≡ length before
      → n ≡ i + length (pipe_words c ds stop)
      → length (pipe_words c ds stop) ≤ turns
      → Programs access_ok aliases c ds
      → check_loop access_ok aliases turns n i
          (record { found = found; usr_bin = usr_bin; list = before ++ pipe_words c ds stop })
        ≡ done (
          if exists access_ok (last_of c ds) then valid_command else invalid_command,
          before ++ pipe_words (located access_ok c) (map (located access_ok) ds) stop,
        )
  loop-pipe [] c zero n i found usr_bin before at size le p = absurd (omega arith)
  loop-pipe [] c (suc turns) n i found usr_bin before at size le p =
      loop_turn access_ok aliases turns n i _ (after_program access_ok aliases before c [])
        (omega (arith, size))
        (check_turn-Program access_ok aliases n i found usr_bin before [] c at p)
      ∙ loop_end access_ok aliases turns n (i + 1) (after_program access_ok aliases before c [])
          (omega (arith, size))
  loop-pipe (d ∷ ds) c zero n i found usr_bin before at size le (p, plain, ps) =
      absurd (omega arith)
  loop-pipe (d ∷ ds) c (suc zero) n i found usr_bin before at size le (p, plain, ps) =
      absurd (omega arith)
  loop-pipe (d ∷ ds) c (suc (suc turns)) n i found usr_bin before at size le (p, plain, ps) =
      let more = pipe_words d ds stop in
      let c' = located access_ok c in
      let rest' = pipe_words (located access_ok d) (map (located access_ok) ds) stop in
      let s₁ = after_program access_ok aliases before c (pipe_text ∷ more) in
      let front₁ = before ++ (c' ∷ []) in
      let front₂ = front₁ ++ (pipe_text ∷ []) in
      let size₁ = length-append before (c' ∷ []) in
      let size₂ = length-append front₁ (pipe_text ∷ []) in
      let long = pipe_words-long d ds stop in
      let usr = usr_bin_path (first_word c) in
      let moved₁ : before ++ (c' ∷ (pipe_text ∷ more)) ≡ front₁ ++ (pipe_text ∷ more) =
        sym (append_assoc before (c' ∷ []) (pipe_text ∷ more)) in
      let moved₂ : front₁ ++ (pipe_text ∷ more) ≡ front₂ ++ more =
        sym (append_assoc front₁ (pipe_text ∷ []) more) in
      let back : front₂ ++ rest' ≡ before ++ (c' ∷ (pipe_text ∷ rest')) =
        append_assoc front₁ (pipe_text ∷ []) rest'
        ∙ append_assoc before (c' ∷ []) (pipe_text ∷ rest') in
      loop_turn access_ok aliases (suc turns) n i _ s₁ (omega (arith, size))
        (check_turn-Program access_ok aliases n i found usr_bin before (pipe_text ∷ more) c at p)
      ∙ ap
          (λ l.
            check_loop access_ok aliases (suc turns) n (i + 1)
              (record { found = exists access_ok c; usr_bin = usr; list = l }))
          moved₁
      ∙ loop_turn access_ok aliases turns n (i + 1) _ _ (omega (arith, size)) (
          pipe_turn access_ok aliases n (i + 1) (exists access_ok c) usr front₁ more d free
            (omega (arith, at, size₁)) (omega arith) (omega (arith, size, long))
            (pipe_words-head d ds) plain)
      ∙ ap
          (λ l.
            check_loop access_ok aliases turns n (i + 1 + 1)
              (record { found = true; usr_bin = usr_bin_path pipe_text; list = l }))
          moved₂
      ∙ loop-pipe ds d turns n (i + 1 + 1) true (usr_bin_path pipe_text) front₂
          (omega (arith, at, size₁, size₂)) (omega (arith, size)) (omega (arith, le)) ps
      ∙ ap
          (λ l.
            done (if exists access_ok (last_of d ds) then valid_command else invalid_command, l))
          back

-- A pipeline of programs without operators in front of their names, where "|" is no alias and no
-- program: every command has its program's path put in front of it if there is one, and the
-- pipeline is found valid exactly if the last program exists, whatever the others are.
pub validate_command-pipe :
    (access_ok : Text → Bool) (aliases : AssocAr) (usr_bin c : Text) (ds : List Text)
    → PipeFree access_ok aliases
    → Programs access_ok aliases c ds
    → validate_command access_ok aliases usr_bin (pipe_words c ds stop)
      ≡ done (
        if exists access_ok (last_of c ds) then valid_command else invalid_command,
        pipe_words (located access_ok c) (map (located access_ok) ds) stop,
      )
unfolding validate_command
validate_command-pipe access_ok aliases usr_bin c ds free ps =
    let some_words : (length (pipe_words c ds stop) == 0) ≡ false =
      ground (arith, pipe_words-long c ds stop) in
    rw some_words (
      loop-pipe access_ok aliases free ds c (length (pipe_words c ds stop))
        (length (pipe_words c ds stop)) 0 false usr_bin [] refl (omega arith) (omega arith) ps)
