-- ===== src/FsTool/Users.antt =====
-- The users of a vnode, and the scan of `do_fileinfo` for them.
use cs551os.Prelude.{
  ℕ, ◌+◌, ◌*◌, ◌≤◌, ◌<◌, ◌≡◌, ◌∙◌, ap, refl, sym, List, [], ◌∷◌, ◌++◌, ℤ, pos, minus_one, Option,
  none, some, if◌then◌else◌, ◌==◌, ltb, length, length-set, length-append, set, fault, ◌>>=◌, Gives,
  Gives->>=, ◌⊎◌, inl, inr, map, arith, subst, true, false, Bool, suc, tests, Bool, suc, tests,
  if_true, if_false, lt→ltb, Bool-cases,
}
use mathlib.Core.List.{append_assoc, append-nil}
use cs551os.FsTool.{
  Filp, Fproc, Effect, Scan, print_header, print_user, store_pair, note_user, scan_filps, terminate,
}

-- The open files of a process with the vnode: its pid and their modes.
unfoldable pub filp_users : ℕ → ℕ → List (Option Filp) → List (ℕ × ℕ)
filp_users vp pid [] = []
filp_users vp pid (none ∷ fs) = filp_users vp pid fs
filp_users vp pid (some f ∷ fs) =
    let rest = filp_users vp pid fs in if f.filp_vno == vp then (pid, f.filp_mode) ∷ rest else rest

-- Those of all processes; a free slot has the pid 0.
unfoldable pub users : ℕ → List Fproc → List (ℕ × ℕ)
users vp [] = []
users vp (p ∷ ps) =
    let rest = users vp ps in
    if p.fp_pid == 0 then rest else filp_users vp p.fp_pid p.fp_filp ++ rest

-- What is printed of them.
abbrev pub lines : List (ℕ × ℕ) → List Effect
lines us = map (λ u. print_user u.0 u.1) us

unfoldable pub shown : List (ℕ × ℕ) → List Effect
shown [] = []
shown (u ∷ us) = print_header ∷ lines (u ∷ us)

-- The scan has met these users, and the array has its length.
pub record Met (n : ℕ) (us : List (ℕ × ℕ)) (s : Scan) : Type 0 where
  pub count : s.f_open_count ≡ length us
  pub size : length s.pid_info ≡ n
  pub effects : s.effects ≡ shown us

map-append : (us vs : List (ℕ × ℕ)) → lines us ++ lines vs ≡ lines (us ++ vs)
map-append [] vs = refl
map-append (u ∷ us) vs = rw (map-append us vs) refl

shown-snoc :
    (us : List (ℕ × ℕ)) (pid mode : ℕ)
    → shown us ++ ((if length us == 0 then print_header ∷ [] else []) ++ (print_user pid mode ∷ []))
      ≡ shown (us ++ ((pid, mode) ∷ []))
unfolding shown
shown-snoc [] pid mode = refl
shown-snoc (u ∷ us) pid mode =
    let more : (suc (length us) == 0) ≡ false = ground arith in
    rw more (ap (λ es. print_header ∷ es) (map-append (u ∷ us) ((pid, mode) ∷ [])))

store_pair-fits :
    (a b : ℤ) (s : Scan)
    → 2 * s.f_open_count + 1 < length s.pid_info
    → Gives (store_pair a b s) (λ info. length info ≡ length s.pid_info)
unfolding store_pair
store_pair-fits a b s lt = (
  set (set s.pid_info (2 * s.f_open_count) a) (2 * s.f_open_count + 1) b,
  if_true _ fault (lt→ltb (2 * s.f_open_count + 1) (length s.pid_info) lt),
  length-set (set s.pid_info (2 * s.f_open_count) a) (2 * s.f_open_count + 1) b
      ∙ length-set s.pid_info (2 * s.f_open_count) a,
)

store_pair-full :
    (a b : ℤ) (s : Scan) → length s.pid_info ≤ 2 * s.f_open_count + 1 → store_pair a b s ≡ fault
unfolding store_pair
store_pair-full a b s le =
    let outside : ltb (2 * s.f_open_count + 1) (length s.pid_info) ≡ false = ground arith in
    if_false _ fault outside

pub fits_or_not : (a n : ℕ) → (a < n) ⊎ (n ≤ a)
fits_or_not a n = elim (Bool-cases (ltb a n)) [
  | inl h ↦ inl (omega (tests, h))
  | inr h ↦ inr (ground arith)
]

module _ (n : ℕ) where
  note_user-Gives :
      (pid : ℕ) (us : List (ℕ × ℕ)) (f : Filp) (s : Scan)
      → 2 * length us + 1 < n
      → Met n us s
      → Gives (note_user pid f s) (Met n (us ++ ((pid, f.filp_mode) ∷ [])))
  unfolding note_user
  note_user-Gives pid us f s lt met =
      let (info, e, same) =
        store_pair-fits (pos pid) (pos f.filp_mode) s (omega (arith, met.count, met.size)) in
      let header = if s.f_open_count == 0 then print_header ∷ [] else [] in
      (
        record {
          f_open_count = s.f_open_count + 1;
          pid_info = info;
          effects = s.effects ++ (header ++ (print_user pid f.filp_mode ∷ []));
        },
        rw e refl,
        record {
          count = omega (arith, met.count, length-append us ((pid, f.filp_mode) ∷ []));
          size = same ∙ met.size;
          effects = rw (met.effects, met.count) (shown-snoc us pid f.filp_mode);
        },
      )

  note_user-full :
      (pid : ℕ) (us : List (ℕ × ℕ)) (f : Filp) (s : Scan)
      → n ≤ 2 * length us + 1
      → Met n us s
      → note_user pid f s ≡ fault
  unfolding note_user
  note_user-full pid us f s le met =
      rw (store_pair-full (pos pid) (pos f.filp_mode) s (omega (arith, met.count, met.size))) refl

  pub terminate-Gives :
      (us : List (ℕ × ℕ)) (s : Scan)
      → 2 * length us + 1 < n
      → Met n us s
      → Gives (terminate s) (Met n us)
  terminate-Gives us s lt met =
      let (info, e, same) =
        store_pair-fits minus_one minus_one s (omega (arith, met.count, met.size)) in
      (
        record s { pid_info = info },
        rw e refl,
        record { count = met.count; size = same ∙ met.size; effects = met.effects },
      )

  pub terminate-full :
      (us : List (ℕ × ℕ)) (s : Scan) → n ≤ 2 * length us + 1 → Met n us s → terminate s ≡ fault
  terminate-full us s le met =
      rw (store_pair-full minus_one minus_one s (omega (arith, met.count, met.size))) refl

  module _ (vp : ℕ) where
    -- One file: with the rest of them as `rest`, and what is known of the scan of these.
    one_filp-Gives :
        (b : Bool) (pid : ℕ) (f : Filp) (fs : List (Option Filp)) (rest us : List (ℕ × ℕ))
        (s : Scan)
        → ((vs : List (ℕ × ℕ)) (s' : Scan)
            → 2 * (length vs + length rest) ≤ n
            → Met n vs s'
            → Gives (scan_filps vp pid fs s') (Met n (vs ++ rest)))
        → 2 * (length us + length (if b then (pid, f.filp_mode) ∷ rest else rest)) ≤ n
        → Met n us s
        → Gives
            (if b then note_user pid f s >>= scan_filps vp pid fs else scan_filps vp pid fs s)
            (Met n (us ++ (if b then (pid, f.filp_mode) ∷ rest else rest)))
    one_filp-Gives false pid f fs rest us s others le met = others us s le met
    one_filp-Gives true pid f fs rest us s others le met =
        let user : List (ℕ × ℕ) = (pid, f.filp_mode) ∷ [] in
        Gives->>= (note_user pid f s) (scan_filps vp pid fs) (Met n (us ++ user))
          (Met n (us ++ (user ++ rest))) (note_user-Gives pid us f s (omega (arith, le)) met)
          (λ s' met'.
            subst (λ vs. Gives (scan_filps vp pid fs s') (Met n vs)) (append_assoc us user rest)
              (others (us ++ user) s' (omega (arith, le, length-append us user)) met'))

    pub scan_filps-Gives :
        (pid : ℕ) (fs : List (Option Filp)) (us : List (ℕ × ℕ)) (s : Scan)
        → 2 * (length us + length (filp_users vp pid fs)) ≤ n
        → Met n us s
        → Gives (scan_filps vp pid fs s) (Met n (us ++ filp_users vp pid fs))
    unfolding scan_filps filp_users
    scan_filps-Gives pid [] us s le met =
        (s, refl, subst (λ vs. Met n vs s) (sym (append-nil us)) met)
    scan_filps-Gives pid (none ∷ fs) us s le met = scan_filps-Gives pid fs us s le met
    scan_filps-Gives pid (some f ∷ fs) us s le met =
        one_filp-Gives (f.filp_vno == vp) pid f fs (filp_users vp pid fs) us s
          (scan_filps-Gives pid fs) le met

    one_filp-full :
        (b : Bool) (pid : ℕ) (f : Filp) (fs : List (Option Filp)) (rest us : List (ℕ × ℕ))
        (s : Scan)
        → ((vs : List (ℕ × ℕ)) (s' : Scan)
            → 2 * length vs ≤ n
            → n < 2 * (length vs + length rest)
            → Met n vs s'
            → scan_filps vp pid fs s' ≡ fault)
        → 2 * length us ≤ n
        → n < 2 * (length us + length (if b then (pid, f.filp_mode) ∷ rest else rest))
        → Met n us s
        → (if b then note_user pid f s >>= scan_filps vp pid fs else scan_filps vp pid fs s) ≡ fault
    one_filp-full false pid f fs rest us s others le lt met = others us s le lt met
    one_filp-full true pid f fs rest us s others le lt met =
        let user : List (ℕ × ℕ) = (pid, f.filp_mode) ∷ [] in
        elim (fits_or_not (2 * length us + 1) n) [
          | inr over ↦ rw (note_user-full pid us f s over met) refl
          | inl fits ↦
              let (s', e, met') = note_user-Gives pid us f s fits met in
              rw e (
                others (us ++ user) s' (omega (arith, length-append us user))
                  (omega (arith, lt, length-append us user)) met')
        ]

    pub scan_filps-full :
        (pid : ℕ) (fs : List (Option Filp)) (us : List (ℕ × ℕ)) (s : Scan)
        → 2 * length us ≤ n
        → n < 2 * (length us + length (filp_users vp pid fs))
        → Met n us s
        → scan_filps vp pid fs s ≡ fault
    unfolding scan_filps filp_users
    scan_filps-full pid [] us s le lt met = absurd (omega arith)
    scan_filps-full pid (none ∷ fs) us s le lt met = scan_filps-full pid fs us s le lt met
    scan_filps-full pid (some f ∷ fs) us s le lt met =
        one_filp-full (f.filp_vno == vp) pid f fs (filp_users vp pid fs) us s
          (scan_filps-full pid fs) le lt met
