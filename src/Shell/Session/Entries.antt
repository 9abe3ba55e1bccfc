-- ===== src/Shell/Session/Entries.antt =====
-- What is written to the file of aliases, and what it is read to.
use cs551os.Prelude.{
  ℕ, zero, suc, ◌+◌, ◌≤◌, ◌≡◌, ◌≢◌, ◌∙◌, ap, refl, sym, inl, inr, List, [], ◌∷◌, ◌++◌, map, length,
  minus_one, eq_int, drop, if◌then◌else◌, Bool-cases, arith,
}
use mathlib.Core.List.{append_assoc}
use cs551os.Lines.{Text, newline}
use cs551os.Lines.Laws.{Line}
use cs551os.Shell.Assoc.{String, AssocAr, write_loop, alias_line, max_cur_size, write_alias}
use cs551os.Shell.Assoc.Stored.{Stored}
use cs551os.Shell.Startup.Laws.{FullLines, no_line, full_line, lines_of}
use cs551os.Shell.Alias.Laws.{Simple}
use cs551os.Shell.Alias.Saved.{saved_line, SavedValue}
use cs551os.Shell.Check.{alias_name}
use cs551os.Shell.Session.{joined, bye}

-- An alias that is saved as a line, and read back from it.
pub record Savable (key val : String) : Type 0 where
  pub first : ℕ
  pub others : Text
  pub is_key : key ≡ first ∷ others
  pub name : Simple (first ∷ others)
  pub value : SavedValue val
  pub line : Line (saved_line key val)
  pub other : alias_name ≢ key

-- The aliases of the main table from `i` on, `n` entries.
unfoldable pub entries_from : ℕ → ℕ → AssocAr → List (String × String)
entries_from zero i ar = []
entries_from (suc n) i ar =
    let rest = entries_from n (i + 1) ar in
    if eq_int (ar.hit_idx i) minus_one then rest else (ar.key_tbl i, ar.val_tbl i) ∷ rest

abbrev pub entries : AssocAr → List (String × String)
entries ar = entries_from max_cur_size 0 ar

abbrev pub line_of : String × String → Text
line_of e = saved_line e.0 e.1

alias_line-saved :
    (key val rest : Text) → alias_line key val ++ rest ≡ saved_line key val ++ (newline ∷ rest)
alias_line-saved key val rest =
    ap (λ u. alias_name ++ (32 ∷ u))
      (append_assoc key (61 ∷ (val ++ (10 ∷ []))) rest
        ∙ ap (λ u. key ++ (61 ∷ u)) (append_assoc val (10 ∷ []) rest)
        ∙ sym (append_assoc key (61 ∷ val) (10 ∷ rest)))

joined-write_loop :
    (n i : ℕ) (ar : AssocAr)
    → joined (write_loop n i ar) ≡ lines_of (map line_of (entries_from n i ar)) []
unfolding write_loop entries_from lines_of
joined-write_loop zero i ar = refl
joined-write_loop (suc n) i ar = elim (Bool-cases (eq_int (ar.hit_idx i) minus_one)) [
  | inl absent ↦ rw absent (joined-write_loop n (i + 1) ar)
  | inr present ↦ rw present (
      ap (λ u. alias_line (ar.key_tbl i) (ar.val_tbl i) ++ u) (joined-write_loop n (i + 1) ar)
      ∙ alias_line-saved (ar.key_tbl i) (ar.val_tbl i)
          (lines_of (map line_of (entries_from n (i + 1) ar)) []))
]

pub bye-lines : (ar : AssocAr) → bye ar ≡ lines_of (map line_of (entries ar)) []
unfolding bye write_alias
bye-lines ar = joined-write_loop max_cur_size 0 ar

entries_from-FullLines :
    (n i : ℕ) (ar : AssocAr)
    → Stored Savable ar
    → i + n ≤ max_cur_size
    → FullLines (map line_of (entries_from n i ar))
unfolding entries_from
entries_from-FullLines zero i ar stored le = no_line
entries_from-FullLines (suc n) i ar stored le =
    elim (Bool-cases (eq_int (ar.hit_idx i) minus_one)) [
      | inl absent ↦ rw absent (entries_from-FullLines n (i + 1) ar stored (omega arith))
      | inr present ↦ rw present (
          full_line (stored i (omega arith) (ground arith)).0.line (omega arith)
            (entries_from-FullLines n (i + 1) ar stored (omega arith)))
    ]

pub entries-FullLines : (ar : AssocAr) → Stored Savable ar → FullLines (map line_of (entries ar))
entries-FullLines ar stored = entries_from-FullLines max_cur_size 0 ar stored (omega arith)

pub drop-map : (xs : List (String × String)) → drop 1 (map line_of xs) ≡ map line_of (drop 1 xs)
drop-map [] = refl
drop-map (x ∷ xs) = refl

pub length-entries_from : (n i : ℕ) (ar : AssocAr) → length (entries_from n i ar) ≤ n
unfolding entries_from
length-entries_from zero i ar = omega arith
length-entries_from (suc n) i ar = ground (arith, length-entries_from n (i + 1) ar)
