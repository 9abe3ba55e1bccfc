-- ===== src/Shell/Session/Restart.antt =====
-- Which aliases a new session has.
use cs551os.Prelude.{
  ℕ, zero, suc, ◌+◌, ◌≤◌, ◌<◌, ◌≡◌, ◌∙◌, ap, refl, sym, subst, inl, inr, Bool, List, [], ◌∷◌, map,
  length, length-map, length-append, none, minus_one, eq_int, drop, done, Gives, Bool-cases, arith,
}
use cs551os.Lines.{Text}
use cs551os.Lines.Laws.{at_eof}
use cs551os.Shell.Assoc.{String, AssocAr, add, get, get_hash, init, max_cur_size}
use cs551os.Shell.Assoc.Laws.{Ok, init-Ok, get-absent}
use cs551os.Shell.Assoc.Refine.{add_iff, add-Added, add_all, setting, setting-add}
use cs551os.Shell.Assoc.Stored.{Stored, AllOf, init-Stored, add-hits}
use cs551os.Shell.Alias.Laws.{Simple}
use cs551os.Shell.Alias.Saved.{saved_line, SavedValue, parse_cmd-saved}
use cs551os.Shell.Check.{alias_name}
use cs551os.Shell.Startup.{Pointer, to_buffer, startup}
use cs551os.Shell.Startup.Laws.{lines_of, no_line, startup_lem}
use cs551os.Shell.Turn.{Shell, Action, no_action, turn}
use cs551os.Shell.Turn.Laws.{validate_command-alias, dispatch-alias}
use cs551os.Shell.Session.{bye, run_lines, start_shell}
use cs551os.Shell.Session.Entries.{
  Savable, entries_from, entries, line_of, length-entries_from, bye-lines, entries-FullLines,
  drop-map,
}

turn-named :
    (access_ok : Text → Bool) (usr_bin : Text) (sh : Shell) (c : ℕ) (name val : Text)
    (table : AssocAr)
    → Simple (c ∷ name)
    → SavedValue val
    → get sh.aliases alias_name ≡ none
    → add sh.aliases (c ∷ name) val ≡ done table
    → turn access_ok usr_bin sh (saved_line (c ∷ name) val)
      ≡ done (record sh { aliases = table }, no_action)
unfolding turn
turn-named access_ok usr_bin sh c name val table n v absent added =
    rw
      (
        parse_cmd-saved c name val n v,
        validate_command-alias access_ok sh.aliases usr_bin (c ∷ name) val absent,
      )
      (dispatch-alias sh (c ∷ name) val table added)

-- A saved line sets its alias.
turn-saved :
    (access_ok : Text → Bool) (usr_bin : Text) (sh : Shell) (key val : Text) (table : AssocAr)
    → Savable key val
    → get sh.aliases alias_name ≡ none
    → add sh.aliases key val ≡ done table
    → turn access_ok usr_bin sh (saved_line key val)
      ≡ done (record sh { aliases = table }, no_action)
turn-saved access_ok usr_bin sh key val table s absent added =
    ap (λ k. turn access_ok usr_bin sh (saved_line k val)) s.is_key
    ∙ turn-named access_ok usr_bin sh s.first s.others val table s.name s.value absent
        (subst (λ k. add sh.aliases k val ≡ done table) s.is_key added)

-- A table with room for the entries from `i` on.
record Fresh (i : ℕ) (table : AssocAr) : Type 0 where
  ok : Ok table
  plain : get table alias_name ≡ none
  unused : (j : ℕ) → i ≤ j → table.hit_idx j ≡ minus_one

Fresh-later : (i : ℕ) (table : AssocAr) → Fresh i table → Fresh (i + 1) table
Fresh-later i table fresh = record {
  ok = fresh.ok;
  plain = fresh.plain;
  unused = λ j le. fresh.unused j (omega arith);
}

Fresh-next :
    (i : ℕ) (table table' : AssocAr) (key val : Text)
    → Fresh i table
    → Savable key val
    → get_hash key ≡ i
    → add table key val ≡ done table'
    → Fresh (i + 1) table'
Fresh-next i table table' key val fresh s hash added =
    let new = add-Added table table' key val fresh.ok added in
    record {
      ok = new.ok;
      plain = new.old alias_name s.other ∙ fresh.plain;
      unused = λ j le.
          add-hits table table' key val j fresh.ok (fresh.unused (get_hash key) (omega arith)) added
            (omega (arith, hash))
          ∙ fresh.unused j (omega arith);
    }

length-saved_line : (key val : Text) → length (saved_line key val) ≡ length key + length val + 7
length-saved_line key val = omega (arith, length-append key (61 ∷ val))

add-Fresh :
    (table : AssocAr) (i : ℕ) (key val : Text)
    → Fresh i table
    → Savable key val
    → get_hash key ≡ i
    → (table' : AssocAr) × (add table key val ≡ done table')
add-Fresh table i key val fresh s hash =
    let short = length-saved_line key val in
    (add_iff table key val fresh.ok (omega (arith, s.line.short, short))
        (omega (arith, s.line.short, short))).1
      (inr (inl (fresh.unused (get_hash key) (omega (arith, hash)))))

-- What a list of settings makes of the shell: no process, and nothing but its aliases.
abbrev Sets : List (String × String) → Shell → Shell × List Action → Type 0
Sets settings sh r =
    ((key : String) → get r.0.aliases key ≡ setting (get sh.aliases key) settings key)
    × (r.0.home ≡ sh.home)
    × (r.0.prompt ≡ sh.prompt)
    × (r.1 ≡ map (λ e. no_action) settings)

module _ (access_ok : Text → Bool) (usr_bin : ℕ → Text) where
  run_entries :
      (n i k : ℕ) (ar : AssocAr) (sh : Shell)
      → Stored Savable ar
      → i + n ≤ max_cur_size
      → Fresh i sh.aliases
      → Gives
          (run_lines access_ok usr_bin k sh (map line_of (entries_from n i ar)))
          (Sets (entries_from n i ar) sh)
  unfolding run_lines entries_from setting
  run_entries zero i k ar sh stored le fresh = ((sh, []), refl, (λ key. refl, refl, refl, refl))
  run_entries (suc n) i k ar sh stored le fresh =
      elim (Bool-cases (eq_int (ar.hit_idx i) minus_one)) [
        | inl absent ↦
            rw absent
              (run_entries n (i + 1) k ar sh stored (omega arith) (Fresh-later i sh.aliases fresh))
        | inr present ↦
            let key = ar.key_tbl i in
            let val = ar.val_tbl i in
            let (s, hash) = stored i (omega arith) (ground arith) in
            let (table, added) = add-Fresh sh.aliases i key val fresh s hash in
            let sh₁ : Shell = record sh { aliases = table } in
            let ((sh₂, actions), run, (sets, home, prompt, quiet)) =
              run_entries n (i + 1) (k + 1) ar sh₁ stored (omega arith)
                (Fresh-next i sh.aliases table key val fresh s hash added) in
            rw present (
              (sh₂, no_action ∷ actions),
              rw (turn-saved access_ok (usr_bin k) sh key val table s fresh.plain added, run) refl,
              (
                λ other.
                    sets other
                    ∙ setting-add (entries_from n (i + 1) ar) sh.aliases table key val other
                        fresh.ok added,
                home,
                prompt,
                ap (λ a. no_action ∷ a) quiet,
              ),
            )
      ]

  -- Without the first of them.
  run_dropped :
      (n i : ℕ) (ar : AssocAr) (sh : Shell)
      → Stored Savable ar
      → i + n ≤ max_cur_size
      → Fresh i sh.aliases
      → Gives
          (run_lines access_ok usr_bin 0 sh (map line_of (drop 1 (entries_from n i ar))))
          (Sets (drop 1 (entries_from n i ar)) sh)
  unfolding run_lines entries_from setting
  run_dropped zero i ar sh stored le fresh = ((sh, []), refl, (λ key. refl, refl, refl, refl))
  run_dropped (suc n) i ar sh stored le fresh =
      elim (Bool-cases (eq_int (ar.hit_idx i) minus_one)) [
        | inl absent ↦
            rw absent
              (run_dropped n (i + 1) ar sh stored (omega arith) (Fresh-later i sh.aliases fresh))
        | inr present ↦
            rw present
              (run_entries n (i + 1) 0 ar sh stored (omega arith) (Fresh-later i sh.aliases fresh))
      ]

init-Fresh : (keys vals : ℕ → String) → Fresh 0 (init keys vals)
unfolding init
init-Fresh keys vals = record {
  ok = init-Ok keys vals;
  plain = get-absent (init keys vals) alias_name refl;
  unused = λ j le. refl;
}

-- If the inner `line`, which the code does not initialise, is in every turn a buffer that may be
-- written: after any settings of savable aliases that went into the table, with the file that `bye`
-- writes for it, an empty profile and enough fuel, the next session starts: no process is started,
-- the home and the prompt are the given ones, and the aliases are those of the main table of the
-- last session, without the first one.
pub start_shell-bye :
    (line_at : ℕ → Pointer) (access_ok : Text → Bool) (usr_bin : ℕ → Text)
    (keys vals keys' vals' : ℕ → String) (settings : List (String × String)) (ar : AssocAr)
    (sh : Shell) (fuel : ℕ)
    → ((i : ℕ) → line_at i ≡ to_buffer)
    → AllOf Savable settings
    → add_all (init keys vals) settings ≡ done ar
    → sh.aliases ≡ init keys' vals'
    → max_cur_size + 4 < fuel
    → Gives (start_shell line_at access_ok usr_bin fuel [] (bye ar) sh) (λ r.
      ((key : String) → get r.0.aliases key ≡ setting none (drop 1 (entries ar)) key)
      × (r.0.home ≡ sh.home)
      × (r.0.prompt ≡ sh.prompt)
      × (r.1 ≡ map (λ e. no_action) (drop 1 (entries ar))))
unfolding start_shell lines_of init
start_shell-bye line_at access_ok usr_bin keys vals keys' vals' settings ar sh fuel each all added
      empty lt =
    let stored = init-Stored Savable keys vals settings ar all added in
    let fresh : Fresh 0 sh.aliases = subst (Fresh 0) (sym empty) (init-Fresh keys' vals') in
    let (r, run, (sets, home, prompt, quiet)) =
      run_dropped access_ok usr_bin max_cur_size 0 ar sh stored (omega arith) fresh in
    let read : startup line_at fuel [] (bye ar) ≡ done (map line_of (drop 1 (entries ar))) =
      ap (startup line_at fuel []) (bye-lines ar)
      ∙ startup_lem line_at [] (map line_of (entries ar)) [] [] [] [] fuel each no_line
          (entries-FullLines ar stored) at_eof at_eof
          (omega (arith, length-map (entries ar) line_of, length-entries_from max_cur_size 0 ar))
      ∙ ap done (drop-map (entries ar)) in
    (
      r,
      rw read run,
      (
        λ key.
            sets key
            ∙ ap (λ o. setting o (drop 1 (entries ar)) key)
                (ap (λ t. get t key) empty ∙ get-absent (init keys' vals') key refl),
        home,
        prompt,
        quiet,
      ),
    )
