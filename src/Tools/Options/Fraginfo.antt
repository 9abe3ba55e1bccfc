-- ===== src/Tools/Options/Fraginfo.antt =====
-- What `main` of fraginfo.c makes of its arguments.
use cs551os.Prelude.{
  and-split, ℕ, suc, ◌≡◌, refl, sym, Bool, true, false, arith, ◌&&◌, ◌||◌, List, [], ◌∷◌, ◌++◌, ltb,
  length, if◌then◌else◌, Run, done, Bool-cases, inl, inr,
}
use mathlib.Core.Bool.{or-true, or-false, or_assoc}
use cs551os.Tools.Options.{
  String, strchr, is_option, fits, Outcome, help, fileinfo_call, fraginfo_call, all_devices,
  FragOpts, or_if, select, fraginfo_args, fraginfo_main, frag_outcome,
}
use cs551os.Tools.Options.Spec.{any, all_fit, given, files, first_or_default}

abbrev one_more : Bool → ℕ → ℕ
one_more true n = suc n
one_more false n = n

-- How often the options have an i or an e.
unfoldable pub picks : List String → ℕ
picks [] = 0
picks (p ∷ ps) =
    let rest = picks ps in
    if is_option p then one_more (strchr p 105) (one_more (strchr p 101) rest) else rest

-- Help for -h, a second selection or a second file name; otherwise the call.
abbrev pub fraginfo_outcome : (h d e : Bool) → ℕ → List String → Outcome
fraginfo_outcome h d e n fs =
    if h || (ltb 1 n || ltb 1 (length fs))
    then help
    else if e
    then fraginfo_call (first_or_default fs) (if d then 16 else 0)
    else if ltb 0 (length fs)
    then fileinfo_call (first_or_default fs) 4
    else all_devices

-- What was selected.
data Pick : Type 0 where
  no_pick internal external : Pick

abbrev picked : Pick → Bool
picked no_pick = false
picked internal = true
picked external = true

abbrev is_external : Pick → Bool
is_external no_pick = false
is_external internal = false
is_external external = true

-- The variables, after such options and these file names.
abbrev opts_after : Bool → Pick → List String → FragOpts
opts_after d k fs = record {
  mode_i = if d then 16 else 0;
  got_f_name = ltb 0 (length fs);
  frag_selected = picked k;
  int_ext = is_external k;
  fname = first_or_default fs;
}

-- With what the rest of the arguments says.
abbrev outcome_from : Bool → Pick → List String → (h d e : Bool) → ℕ → List String → Run Outcome
outcome_from d k fs h more_d e n more =
    done
      (fraginfo_outcome h (d || more_d) (is_external k || e) (one_more (picked k) n) (fs ++ more))

device_bit : (d more : Bool) → or_if more (if d then 16 else 0) 16 ≡ (if d || more then 16 else 0)
device_bit false false = refl
device_bit false true = refl
device_bit true false = refl
device_bit true true = refl

two_help : (h : Bool) (n : ℕ) (b : Bool) → (h || (ltb 1 (suc (suc n)) || b)) ≡ true
two_help h n b = let many : ltb 1 (suc (suc n)) ≡ true = ground arith in rw (many, or-true h) refl

-- The part of an option behind -d and -h, for every rest of the loop.
option_step :
    (rest : FragOpts → Run Outcome) (d : Bool) (k : Pick) (fs : List String) (h more_d e : Bool)
    (n : ℕ) (more : List String) (i x : Bool)
    → ((k' : Pick) → rest (opts_after d k' fs) ≡ outcome_from d k' fs h more_d e n more)
    → (if i && (opts_after d k fs).frag_selected
        then done help
        else if x && (select i false (opts_after d k fs)).frag_selected
        then done help
        else rest (select x true (select i false (opts_after d k fs))))
      ≡ outcome_from d k fs h more_d (x || e) (one_more i (one_more x n)) more
option_step rest d no_pick fs h more_d e n more false false ih = ih no_pick
option_step rest d no_pick fs h more_d e n more true false ih = ih internal
option_step rest d no_pick fs h more_d e n more false true ih = ih external
option_step rest d no_pick fs h more_d e n more true true ih =
    rw (two_help h n (ltb 1 (length (fs ++ more)))) refl
option_step rest d internal fs h more_d e n more false false ih = ih internal
option_step rest d internal fs h more_d e n more true false ih =
    rw (two_help h n (ltb 1 (length (fs ++ more)))) refl
option_step rest d internal fs h more_d e n more false true ih =
    rw (two_help h n (ltb 1 (length (fs ++ more)))) refl
option_step rest d internal fs h more_d e n more true true ih =
    rw (two_help h (suc n) (ltb 1 (length (fs ++ more)))) refl
option_step rest d external fs h more_d e n more false false ih = ih external
option_step rest d external fs h more_d e n more true false ih =
    rw (two_help h n (ltb 1 (length (fs ++ more)))) refl
option_step rest d external fs h more_d e n more false true ih =
    rw (two_help h n (ltb 1 (length (fs ++ more)))) refl
option_step rest d external fs h more_d e n more true true ih =
    rw (two_help h (suc n) (ltb 1 (length (fs ++ more)))) refl

no_more :
    (d : Bool) (k : Pick) (fs : List String)
    → ltb 1 (length fs) ≡ false
    → done (frag_outcome (opts_after d k fs)) ≡ outcome_from d k fs false false false 0 []
no_more d no_pick [] few = refl
no_more d no_pick (f ∷ []) few = refl
no_more d internal [] few = refl
no_more d internal (f ∷ []) few = refl
no_more d external [] few = rw (or-false d) refl
no_more d external (f ∷ []) few = rw (or-false d) refl
no_more d k (f ∷ (g ∷ fs)) few = absurd (ground arith)

file_step :
    (a : String) (args : List String) (d : Bool) (k : Pick) (fs : List String)
    → ltb 1 (length fs) ≡ false
    → fraginfo_args args (opts_after d k (a ∷ []))
      ≡ outcome_from d k
          (a ∷ [])
          (given 104 args)
          (given 100 args)
          (given 101 args)
          (picks args)
          (files args)
    → (if ltb 0 (length fs)
        then done help
        else fraginfo_args args (record (opts_after d k fs) { got_f_name = true; fname = a }))
      ≡ outcome_from d k fs
          (given 104 args)
          (given 100 args)
          (given 101 args)
          (picks args)
          (a ∷ files args)
file_step a args d k [] few rest = rest
file_step a args d k (f ∷ []) few rest =
    let many : ltb 1 (suc (suc (length (files args)))) ≡ true = ground arith in
    rw (many, or-true (ltb 1 (one_more (picked k) (picks args))), or-true (given 104 args)) refl
file_step a args d k (f ∷ (g ∷ fs)) few rest = absurd (ground arith)

args_from :
    (args : List String) (d : Bool) (k : Pick) (fs : List String)
    → all_fit args ≡ true
    → ltb 1 (length fs) ≡ false
    → fraginfo_args args (opts_after d k fs)
      ≡ outcome_from d k fs
          (given 104 args)
          (given 100 args)
          (given 101 args)
          (picks args)
          (files args)
unfolding fraginfo_args any all_fit files picks
args_from [] d k fs fit few = no_more d k fs few
args_from (a ∷ args) d k fs fit few =
    let (fits_a, fit') = and-split {a = fits a} {b = all_fit args} fit in
    elim (Bool-cases (is_option a)) [
      | inl o ↦ elim (Bool-cases (strchr a 104)) [
        | inl h ↦ rw (fits_a, o, h) refl
        | inr h ↦
            rw
              (
                fits_a,
                o,
                h,
                device_bit d (strchr a 100),
                sym (or_assoc d (strchr a 100) (given 100 args)),
              )
              (option_step (fraginfo_args args) (d || strchr a 100) k fs (given 104 args)
                (given 100 args) (given 101 args) (picks args) (files args) (strchr a 105)
                (strchr a 101) (λ k'. args_from args (d || strchr a 100) k' fs fit' few))
      ]
      | inr o ↦ rw (fits_a, o) (file_step a args d k fs few (args_from args d k (a ∷ []) fit' refl))
    ]

-- With arguments of less than 256 bytes, `main` of fraginfo.c shows its help exactly if an option
-- has an h, or the options have more than one i or e, or there is a second file name. Otherwise,
-- with an e it calls `fraginfo` for the file, or the default one, with the mode 16 if an option has
-- a d; and without an e it calls `fileinfo` for the file with the mode 4, or goes through all
-- devices if there is no file: the d has no effect there.
pub fraginfo_main_lem :
    (args : List String)
    → all_fit args ≡ true
    → fraginfo_main args
      ≡ done (
          fraginfo_outcome
            (given 104 args)
            (given 100 args)
            (given 101 args)
            (picks args)
            (files args))
unfolding fraginfo_main
fraginfo_main_lem args fit = args_from args false no_pick [] fit refl
