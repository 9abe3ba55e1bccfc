-- ===== src/Shell/Assoc/Grow.antt =====
-- `add` of a key that goes to a new entry of the overflow table.
use mathlib.Core.Option
use cs551os.Prelude.{
  ℕ, suc, ◌+◌, ◌≤◌, ◌<◌, ◌≡◌, ◌≢◌, ◌∙◌, ap, sym, inl, inr, none, some, ◌==◌, minus_one, Bool-cases,
  Option-cases, if_true, if_false, if◌then◌else◌, arith,
}
use cs551os.Shell.Assoc.{
  String, AssocAr, str_eq, update, find, overflow_of, hit, get_hash, max_cur_size, max_ov_tbl_size,
}
use cs551os.Shell.Assoc.Find.{
  str_eq_refl, str_eq-≢, update_here, update_other, find-ext, find-some, find-snoc_none,
  find-snoc_some,
}
use cs551os.Shell.Assoc.Laws.{
  Ok, get_hash_bound, get-overflow, get-ext, hit_here, hit_stays, hit_counted, hit_same,
}
use cs551os.Shell.Assoc.Add.{Added}

module _ (ar : AssocAr) (ok : Ok ar) (key val : String) where
  unfoldable pub grown : AssocAr
  grown = hit (get_hash key) (record ar {
    key_tbl = update ar.key_tbl (max_cur_size + ar.ov_tbl_size) key;
    val_tbl = update ar.val_tbl (max_cur_size + ar.ov_tbl_size) val;
    ov_tbl_size = ar.ov_tbl_size + 1;
  })

  old_keys : (j : ℕ) → j < max_cur_size + ar.ov_tbl_size → grown.key_tbl j ≡ ar.key_tbl j
  unfolding grown
  old_keys j lt = update_other ar.key_tbl (max_cur_size + ar.ov_tbl_size) j key (omega arith)

  -- The search through the old entries is as before, and then it meets the new one.
  old_search : (x : String) → find ar.ov_tbl_size max_cur_size grown.key_tbl x ≡ overflow_of ar x
  old_search x =
      find-ext ar.ov_tbl_size max_cur_size grown.key_tbl ar.key_tbl x (λ j le lt. old_keys j lt)

  found_none :
      (x : String)
      → overflow_of ar x ≡ none
      → overflow_of grown x ≡ (if str_eq x key then some (max_cur_size + ar.ov_tbl_size) else none)
  unfolding grown
  found_none x e =
      let up : ar.ov_tbl_size + 1 ≡ suc ar.ov_tbl_size = omega arith in
      ap (λ n. find n max_cur_size grown.key_tbl x) up
      ∙ find-snoc_none ar.ov_tbl_size max_cur_size grown.key_tbl x (old_search x ∙ e)
      ∙ ap (λ k. if str_eq x k then some (max_cur_size + ar.ov_tbl_size) else none)
          (update_here ar.key_tbl (max_cur_size + ar.ov_tbl_size) key)

  found_some : (x : String) (j : ℕ) → overflow_of ar x ≡ some j → overflow_of grown x ≡ some j
  unfolding grown
  found_some x j e =
      let up : ar.ov_tbl_size + 1 ≡ suc ar.ov_tbl_size = omega arith in
      ap (λ n. find n max_cur_size grown.key_tbl x) up
      ∙ find-snoc_some ar.ov_tbl_size max_cur_size grown.key_tbl x j (old_search x ∙ e)

  same_value :
      (x : String)
      → x ≢ key
      → Option.map grown.val_tbl (overflow_of grown x) ≡ Option.map ar.val_tbl (overflow_of ar x)
  unfolding grown
  same_value x ne = elim (Option-cases (overflow_of ar x)) [
    | inl e ↦
        ap (Option.map grown.val_tbl) (found_none x e ∙ if_false _ none (str_eq-≢ x key ne))
        ∙ ap (Option.map ar.val_tbl) (sym e)
    | inr (j, e) ↦
        let found = find-some ar.ov_tbl_size max_cur_size ar.key_tbl x j e in
        ap (Option.map grown.val_tbl) (found_some x j e)
        ∙ ap some
            (update_other ar.val_tbl (max_cur_size + ar.ov_tbl_size) j val (omega (arith, found.1)))
        ∙ ap (Option.map ar.val_tbl) (sym e)
  ]

  pub grown-Added :
      ar.hit_idx (get_hash key) ≢ minus_one
      → key ≢ ar.key_tbl (get_hash key)
      → overflow_of ar key ≡ none
      → ar.ov_tbl_size < max_ov_tbl_size
      → Added key val ar grown
  unfolding grown
  grown-Added present not_main e room = record {
    new =
        get-overflow grown key (hit_here ar ok (get_hash key))
          (λ m. not_main (m ∙ old_keys (get_hash key) (omega (arith, get_hash_bound key))))
        ∙ ap (Option.map grown.val_tbl) (found_none key e ∙ if_true _ none (str_eq_refl key))
        ∙ ap some (update_here ar.val_tbl (max_cur_size + ar.ov_tbl_size) val);
    old = λ x ne.
        get-ext ar grown x (hit_same ar ok (get_hash key) present (get_hash x))
          (old_keys (get_hash x) (omega (arith, get_hash_bound x)))
          (λ e'.
            update_other ar.val_tbl (max_cur_size + ar.ov_tbl_size) (get_hash x) val
              (omega (arith, get_hash_bound x)))
          (same_value x ne);
    ok = record {
      room = omega arith;
      known = λ j le lt. hit_stays ar ok (get_hash key) _ (known j le lt);
      counted = hit_counted ar ok (get_hash key);
    };
  }
    where
      known :
          (j : ℕ)
          → max_cur_size ≤ j
          → j < max_cur_size + (ar.ov_tbl_size + 1)
          → ar.hit_idx (get_hash (grown.key_tbl j)) ≢ minus_one
      known j le lt = elim (Bool-cases (j == max_cur_size + ar.ov_tbl_size)) [
        | inl at_end ↦
            λ m. present (sym (ap (λ k. ar.hit_idx (get_hash k)) (if_true key _ at_end)) ∙ m)
        | inr before ↦ λ m.
            ok.known j le (ground arith)
              (sym (ap (λ k. ar.hit_idx (get_hash k)) (if_false key _ before)) ∙ m)
      ]
