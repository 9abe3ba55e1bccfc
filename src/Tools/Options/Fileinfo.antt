-- ===== src/Tools/Options/Fileinfo.antt =====
-- What `main` of fileinfo.c makes of its arguments.
use cs551os.Prelude.{
  and-split, ℕ, suc, ◌+◌, ◌≡◌, refl, sym, Bool, true, false, arith, ◌||◌, List, [], ◌∷◌, ◌++◌, ltb,
  length, if◌then◌else◌, done, Bool-cases, inl, inr,
}
use mathlib.Core.Bool.{or-true, or-false, or_assoc}
use cs551os.Tools.Options.{
  String, strchr, is_option, fits, Outcome, help, fileinfo_call, Opts, or_if, fileinfo_args,
  fileinfo_main,
}
use cs551os.Tools.Options.Spec.{any, all_fit, given, files, first_or_default}

-- The bits of -p and -b.
abbrev pub bits : Bool → Bool → ℕ
bits p b = (if p then 1 else 0) + (if b then 2 else 0)

-- Help for -h or a second file name; otherwise the call, with the mode 3 without options.
abbrev pub fileinfo_outcome : (opt h p b : Bool) → List String → Outcome
fileinfo_outcome opt h p b fs =
    if h || ltb 1 (length fs)
    then help
    else fileinfo_call (first_or_default fs) (if opt then bits p b else 3)

take_bits :
    (p b has_p has_b : Bool)
    → or_if has_b (or_if has_p (bits p b) 1) 2 ≡ bits (p || has_p) (b || has_b)
take_bits false false false false = refl
take_bits false false false true = refl
take_bits false false true false = refl
take_bits false false true true = refl
take_bits false true false false = refl
take_bits false true false true = refl
take_bits false true true false = refl
take_bits false true true true = refl
take_bits true false false false = refl
take_bits true false false true = refl
take_bits true false true false = refl
take_bits true false true true = refl
take_bits true true false false = refl
take_bits true true false true = refl
take_bits true true true false = refl
take_bits true true true true = refl

-- The variables, after options with these letters and these file names.
abbrev opts_after : Bool → Bool → Bool → List String → Opts
opts_after got p b fs = record {
  mode_i = bits p b;
  got_f_name = ltb 0 (length fs);
  got_opt = got;
  fname = first_or_default fs;
}

file_step :
    (a : String) (args : List String) (got p b : Bool) (fs : List String)
    → ltb 1 (length fs) ≡ false
    → fileinfo_args args (opts_after got p b (a ∷ []))
      ≡ done (
          fileinfo_outcome
            (got || any is_option args)
            (given 104 args)
            (p || given 112 args)
            (b || given 98 args)
            (a ∷ files args))
    → (if ltb 0 (length fs)
        then done help
        else fileinfo_args args (record (opts_after got p b fs) { got_f_name = true; fname = a }))
      ≡ done (
          fileinfo_outcome
            (got || any is_option args)
            (given 104 args)
            (p || given 112 args)
            (b || given 98 args)
            (fs ++ (a ∷ files args)))
file_step a args got p b [] few rest = rest
file_step a args got p b (f ∷ []) few rest =
    let many : ltb 1 (suc (suc (length (files args)))) ≡ true = ground arith in
    rw (many, or-true (given 104 args)) refl
file_step a args got p b (f ∷ (g ∷ fs)) few rest = absurd (ground arith)

args_from :
    (args : List String) (got p b : Bool) (fs : List String)
    → all_fit args ≡ true
    → ltb 1 (length fs) ≡ false
    → fileinfo_args args (opts_after got p b fs)
      ≡ done (
          fileinfo_outcome
            (got || any is_option args)
            (given 104 args)
            (p || given 112 args)
            (b || given 98 args)
            (fs ++ files args))
unfolding fileinfo_args any all_fit files
args_from [] got p b [] fit few = rw (or-false got, or-false p, or-false b) refl
args_from [] got p b (f ∷ []) fit few = rw (or-false got, or-false p, or-false b) refl
args_from args got p b (f ∷ (g ∷ fs)) fit few = absurd (ground arith)
args_from (a ∷ args) got p b fs fit few =
    let (fits_a, fit') = and-split {a = fits a} {b = all_fit args} fit in
    elim (Bool-cases (is_option a)) [
      | inl o ↦ elim (Bool-cases (strchr a 104)) [
        | inl h ↦ rw (fits_a, o, h) refl
        | inr h ↦
            rw
              (
                fits_a,
                o,
                h,
                take_bits p b (strchr a 112) (strchr a 98),
                or-true got,
                sym (or_assoc p (strchr a 112) (given 112 args)),
                sym (or_assoc b (strchr a 98) (given 98 args)),
              )
              (args_from args true (p || strchr a 112) (b || strchr a 98) fs fit' few)
      ]
      | inr o ↦
          rw (fits_a, o)
            (file_step a args got p b fs few (args_from args got p b (a ∷ []) fit' refl))
    ]

-- With arguments of less than 256 bytes, `main` of fileinfo.c shows its help exactly if an option
-- has an h or there is a second file name, wherever they stand; otherwise it calls `fileinfo` for
-- the file, or the default one, with the bit 1 for a p and the bit 2 for a b in any of the options,
-- and with both bits if there is no option.
pub fileinfo_main_lem :
    (args : List String)
    → all_fit args ≡ true
    → fileinfo_main args
      ≡ done (
          fileinfo_outcome
            (any is_option args)
            (given 104 args)
            (given 112 args)
            (given 98 args)
            (files args))
unfolding fileinfo_main
fileinfo_main_lem args fit = args_from args false false false [] fit refl
