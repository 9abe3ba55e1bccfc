-- ===== src/Tools/Devices/GetDev.antt =====
-- `main` of prj_3/tool/get_dev.c, which prints what fraginfo.c calls `fileinfo` for.
use cs551os.Prelude.{
  ℕ, zero, suc, ◌≡◌, refl, ap, sym, ◌∙◌, List, [], ◌∷◌, ◌++◌, ◌==◌, length, if◌then◌else◌, Option,
  none, some, Run, done, out_of_fuel, ◌>>=◌, map, Bool-cases, inl, inr, >>=-after, if-after,
}
use cs551os.Lines.{Text, get_non_empty_line}
use cs551os.Shell.Assoc.{str_eq}
use cs551os.Tools.Devices.{Words, Devices, split_line, visit_device, device_loop, list_devices, two}

-- The variables of the loop, with the pairs that are printed.
pub record Printer : Type 0 where
  pub words : Words
  pub last_dev : Text
  pub printed : List (Text × Text)

abbrev pub visit_line : Words → Printer → Printer
visit_line w s =
    if str_eq s.last_dev w.first
    then record s { words = w }
    else if str_eq w.first two
    then record s { words = w }
    else record { words = w; last_dev = w.first; printed = s.printed ++ ((w.first, w.second) ∷ []) }

-- The tool's own copy of the function.
abbrev pub get_dev_line : Text → Run (Text × Text)
get_dev_line fd = get_non_empty_line fd

unfoldable pub print_loop : ℕ → Text → Printer → Run Printer
print_loop zero fd s = out_of_fuel
print_loop (suc fuel) fd s = do
  line ← get_dev_line fd
  let rest = (do w ← split_line line.0 0 [] s.words; print_loop fuel line.1 (visit_line w s))
  if length line.0 == 0 then done s else rest

unfoldable pub get_dev : Words → ℕ → Option Text → Run (List (Text × Text))
get_dev words fuel none = done []
get_dev words fuel (some fd) = do
  s ← print_loop fuel fd (record { words = words; last_dev = []; printed = [] })
  done s.printed

abbrev mounts : List (Text × Text) → List Text
mounts ps = map (λ p. p.1) ps

-- The state of fraginfo.c that corresponds to one of get_dev.c.
abbrev called : Printer → Devices
called s = record { words = s.words; last_dev = s.last_dev; calls = mounts s.printed }

mounts-snoc :
    (ps : List (Text × Text)) (p : Text × Text) → mounts ps ++ (p.1 ∷ []) ≡ mounts (ps ++ (p ∷ []))
mounts-snoc [] p = refl
mounts-snoc (q ∷ ps) p = ap (λ ms. q.1 ∷ ms) (mounts-snoc ps p)

visit_line-called : (w : Words) (s : Printer) → visit_device w (called s) ≡ called (visit_line w s)
visit_line-called w s = elim (Bool-cases (str_eq s.last_dev w.first)) [
  | inl same ↦ rw same refl
  | inr new ↦ elim (Bool-cases (str_eq w.first two)) [
    | inl is_two ↦ rw (new, is_two) refl
    | inr is_other ↦
        rw (new, is_other)
          (ap (λ ms. record { words = w; last_dev = w.first; calls = ms })
            (mounts-snoc s.printed (w.first, w.second)))
  ]
]

print_loop-called :
    (fuel : ℕ) (fd : Text) (s : Printer)
    → device_loop fuel fd (called s) ≡ (print_loop fuel fd s >>= (λ s'. done (called s')))
unfolding device_loop print_loop
print_loop-called zero fd s = refl
print_loop-called (suc fuel) fd s =
    >>=-after (get_non_empty_line fd)
      (λ line.
        if length line.0 == 0
        then done s
        else split_line line.0 0 [] s.words >>= (λ w. print_loop fuel line.1 (visit_line w s)))
      _ (λ s'. done (called s'))
      (λ line.
        if-after (length line.0 == 0) (done s)
          (split_line line.0 0 [] s.words >>= (λ w. print_loop fuel line.1 (visit_line w s)))
          (done (called s))
          (split_line line.0 0 [] s.words
            >>= (λ w. device_loop fuel line.1 (visit_device w (called s))))
          (λ s'. done (called s')) refl
          (>>=-after (split_line line.0 0 [] s.words) (λ w. print_loop fuel line.1 (visit_line w s))
            (λ w. device_loop fuel line.1 (visit_device w (called s))) (λ s'. done (called s'))
            (λ w.
              ap (device_loop fuel line.1) (visit_line-called w s)
              ∙ print_loop-called fuel line.1 (visit_line w s))))

-- fraginfo.c calls `fileinfo` for exactly the second words that get_dev.c prints, in the same
-- order, on every file, also on one that does not open, and fails where get_dev.c fails.
list_devices-get_dev :
    (words : Words) (fuel : ℕ) (file : Option Text)
    → list_devices words fuel file ≡ (get_dev words fuel file >>= (λ ps. done (mounts ps)))
unfolding list_devices get_dev
list_devices-get_dev words fuel none = refl
list_devices-get_dev words fuel (some fd) =
    let start : Printer = record { words = words; last_dev = []; printed = [] } in
    ap (λ r. r >>= (λ s. done s.calls)) (print_loop-called fuel fd start)
    ∙ sym (
        >>=-after (print_loop fuel fd start) (λ s. done (called s)) (λ s. done (mounts s.printed))
          (λ s. done s.calls) (λ s. refl))
    ∙ >>=-after (print_loop fuel fd start) (λ s. done s.printed) (λ s. done (mounts s.printed))
        (λ ps. done (mounts ps)) (λ s. refl)
