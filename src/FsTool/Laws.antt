-- ===== src/FsTool/Laws.antt =====
-- The scan of `do_fileinfo` over all processes, and the two handlers.
use cs551os.Prelude.{
  ℕ, ◌+◌, ◌*◌, ◌≤◌, ◌<◌, ◌≡◌, refl, sym, List, [], ◌∷◌, ◌++◌, if◌then◌else◌, ◌==◌, length,
  length-append, fault, ◌>>=◌, Gives, inl, inr, arith, subst, true, false, Bool,
}
use mathlib.Core.List.{append_assoc, append-nil}
use cs551os.FsTool.{Fproc, Scan, scan_filps, terminate, scan_procs}
use cs551os.FsTool.Users.{
  filp_users, users, Met, scan_filps-Gives, scan_filps-full, terminate-Gives, terminate-full,
  fits_or_not,
}

module _ (n vp : ℕ) where
  -- One process, with what is known of the others.
  one_proc-Gives :
      (b : Bool) (p : Fproc) (ps : List Fproc) (rest us : List (ℕ × ℕ)) (s : Scan)
      → ((vs : List (ℕ × ℕ)) (s' : Scan)
          → 2 * (length vs + length rest) + 1 < n
          → Met n vs s'
          → Gives (scan_procs vp ps s') (Met n (vs ++ rest)))
      → 2 * (length us + length (if b then rest else filp_users vp p.fp_pid p.fp_filp ++ rest)) + 1
        < n
      → Met n us s
      → Gives
          (if b
            then scan_procs vp ps s
            else scan_filps vp p.fp_pid p.fp_filp s >>= (λ s'. terminate s' >>= scan_procs vp ps))
          (Met n (us ++ (if b then rest else filp_users vp p.fp_pid p.fp_filp ++ rest)))
  one_proc-Gives true p ps rest us s others lt met = others us s lt met
  one_proc-Gives false p ps rest us s others lt met =
      let mine = filp_users vp p.fp_pid p.fp_filp in
      let room = length-append mine rest in
      let room' = length-append us mine in
      let (s', e, met') = scan_filps-Gives n vp p.fp_pid p.fp_filp us s (omega arith) met in
      let (s'', e', met'') = terminate-Gives n (us ++ mine) s' (omega arith) met' in
      let (end, e'', met_end) = others (us ++ mine) s'' (omega arith) met'' in
      (end, rw (e, e') e'', subst (λ vs. Met n vs end) (append_assoc us mine rest) met_end)

  pub scan_procs-Gives :
      (ps : List Fproc) (us : List (ℕ × ℕ)) (s : Scan)
      → 2 * (length us + length (users vp ps)) + 1 < n
      → Met n us s
      → Gives (scan_procs vp ps s) (Met n (us ++ users vp ps))
  unfolding scan_procs users
  scan_procs-Gives [] us s lt met = (s, refl, subst (λ vs. Met n vs s) (sym (append-nil us)) met)
  scan_procs-Gives (p ∷ ps) us s lt met =
      one_proc-Gives (p.fp_pid == 0) p ps (users vp ps) us s (scan_procs-Gives ps) lt met

  one_proc-full :
      (b : Bool) (p : Fproc) (ps : List Fproc) (rest us : List (ℕ × ℕ)) (s : Scan)
      → ((vs : List (ℕ × ℕ)) (s' : Scan)
          → 2 * length vs ≤ n
          → 0 < length rest
          → n ≤ 2 * (length vs + length rest) + 1
          → Met n vs s'
          → scan_procs vp ps s' ≡ fault)
      → 2 * length us ≤ n
      → 0 < length (if b then rest else filp_users vp p.fp_pid p.fp_filp ++ rest)
      → n
        ≤ 2 * (length us + length (if b then rest else filp_users vp p.fp_pid p.fp_filp ++ rest))
          + 1
      → Met n us s
      → (if b
          then scan_procs vp ps s
          else scan_filps vp p.fp_pid p.fp_filp s >>= (λ s'. terminate s' >>= scan_procs vp ps))
        ≡ fault
  one_proc-full true p ps rest us s others room some_users over met =
      others us s room some_users over met
  one_proc-full false p ps rest us s others room some_users over met =
      let mine = filp_users vp p.fp_pid p.fp_filp in
      let all = length-append mine rest in
      let all' = length-append us mine in
      elim (fits_or_not n (2 * (length us + length mine))) [
        | inl more ↦ rw (scan_filps-full n vp p.fp_pid p.fp_filp us s room more met) refl
        | inr fits ↦
            let (s', e, met') = scan_filps-Gives n vp p.fp_pid p.fp_filp us s fits met in
            elim (fits_or_not (2 * length (us ++ mine) + 1) n) [
              | inr more ↦ rw (e, terminate-full n (us ++ mine) s' more met') refl
              | inl goes_on ↦
                  let (s'', e', met'') = terminate-Gives n (us ++ mine) s' goes_on met' in
                  rw (e, e')
                    (others (us ++ mine) s'' (omega arith) (omega arith) (omega arith) met'')
            ]
      ]

  pub scan_procs-full :
      (ps : List Fproc) (us : List (ℕ × ℕ)) (s : Scan)
      → 2 * length us ≤ n
      → 0 < length (users vp ps)
      → n ≤ 2 * (length us + length (users vp ps)) + 1
      → Met n us s
      → scan_procs vp ps s ≡ fault
  unfolding scan_procs users
  scan_procs-full [] us s room some_users over met = absurd (omega arith)
  scan_procs-full (p ∷ ps) us s room some_users over met =
      one_proc-full (p.fp_pid == 0) p ps (users vp ps) us s (scan_procs-full ps) room some_users
        over met
