-- ===== src/Shell/Assoc/Add.antt =====
-- After `add`, `get` finds the new value, and what it found before for any other key.
use mathlib.Core.Option
use cs551os.Prelude.{
  ℕ, ◌+◌, ◌<◌, ◌≡◌, ◌≢◌, ◌∙◌, ap, sym, refl, inl, inr, none, some, ◌==◌, minus_one, eq_int,
  Bool-cases, Option-cases, arith,
}
use cs551os.Shell.Assoc.{String, AssocAr, update, overflow_of, hit, get, get_hash, max_cur_size}
use cs551os.Shell.Assoc.Find.{update_here, update_other, find-ext, find-some}
use cs551os.Shell.Assoc.Laws.{
  Ok, get_hash_bound, get-absent, get-main, get-overflow, map-ext, get-ext, hit_here, hit_stays,
  hit_counted, hit_same,
}

-- `ar'` is the table `ar` with `val` for `key`.
pub record Added (key val : String) (ar ar' : AssocAr) : Type 0 where
  pub new : get ar' key ≡ some val
  pub old : (other : String) → other ≢ key → get ar' other ≡ get ar other
  pub ok : Ok ar'

module _ (ar : AssocAr) (ok : Ok ar) (key val : String) where
  -- A first key with its hash.
  unfoldable pub added_main : AssocAr
  added_main = hit (get_hash key) (record ar {
    key_tbl = update ar.key_tbl (get_hash key) key;
    val_tbl = update ar.val_tbl (get_hash key) val;
    cur_size = ar.cur_size + 1;
  })

  pub added_main-Added : ar.hit_idx (get_hash key) ≡ minus_one → Added key val ar added_main
  unfolding added_main
  added_main-Added absent = record { new = new; old = old; ok = ok' }
    where
      h : ℕ
      h = get_hash key

      h_bound : h < max_cur_size
      h_bound = get_hash_bound key

      keys : ℕ → String
      keys = update ar.key_tbl h key

      same_found : (x : String) → overflow_of added_main x ≡ overflow_of ar x
      same_found x =
          find-ext ar.ov_tbl_size max_cur_size keys ar.key_tbl x
            (λ j le lt. update_other ar.key_tbl h j key (omega (arith, h_bound)))

      new : get added_main key ≡ some val
      new =
          get-main added_main key (hit_here ar ok h) (sym (update_here ar.key_tbl h key))
          ∙ ap some (update_here ar.val_tbl h val)

      not_found : (x : String) → get_hash x ≡ h → overflow_of ar x ≡ none
      not_found x e = elim (Option-cases (overflow_of ar x)) [
        | inl e' ↦ e'
        | inr (j, e') ↦
            let (le, lt, is_x) = find-some ar.ov_tbl_size max_cur_size ar.key_tbl x j e' in
            absurd
              (ok.known j le lt (ap (λ k. ar.hit_idx (get_hash k)) is_x ∙ ap ar.hit_idx e ∙ absent))
      ]

      elsewhere : (x : String) → get_hash x ≢ h → get added_main x ≡ get ar x
      elsewhere x ne =
          get-ext ar added_main x
            (ap (λ z. eq_int z minus_one) (update_other ar.hit_idx h (get_hash x) _ ne))
            (update_other ar.key_tbl h (get_hash x) key ne)
            (λ e. update_other ar.val_tbl h (get_hash x) val ne)
            (ap (Option.map added_main.val_tbl) (same_found x)
              ∙ map-ext added_main.val_tbl ar.val_tbl (overflow_of ar x) (λ j e.
                let found = find-some ar.ov_tbl_size max_cur_size ar.key_tbl x j e in
                update_other ar.val_tbl h j val (omega (arith, h_bound, found.0))))

      old : (x : String) → x ≢ key → get added_main x ≡ get ar x
      old x ne = elim (Bool-cases (get_hash x == h)) [
        | inl same ↦
            let e : get_hash x ≡ h = ground arith in
            get-overflow added_main x (λ m. hit_here ar ok h (sym (ap added_main.hit_idx e) ∙ m))
              (λ m. ne (m ∙ ap keys e ∙ update_here ar.key_tbl h key))
            ∙ ap (Option.map added_main.val_tbl) (same_found x ∙ not_found x e)
            ∙ sym (get-absent ar x (ap ar.hit_idx e ∙ absent))
        | inr other ↦ elsewhere x (ground arith)
      ]

      ok' : Ok added_main
      ok' = record {
        room = ok.room;
        known = λ j le lt.
            let e : keys j ≡ ar.key_tbl j =
              update_other ar.key_tbl h j key (omega (arith, h_bound)) in
            hit_stays ar ok h (get_hash (keys j))
              (λ m. ok.known j le lt (sym (ap (λ k. ar.hit_idx (get_hash k)) e) ∙ m));
        counted = hit_counted ar ok h;
      }

  -- A key of the main table.
  unfoldable pub replaced_main : AssocAr
  replaced_main = hit (get_hash key) (record ar { val_tbl = update ar.val_tbl (get_hash key) val })

  pub replaced_main-Added :
      ar.hit_idx (get_hash key) ≢ minus_one
      → key ≡ ar.key_tbl (get_hash key)
      → Added key val ar replaced_main
  unfolding replaced_main
  replaced_main-Added present is_key = record {
    new =
        get-main replaced_main key (hit_here ar ok (get_hash key)) is_key
        ∙ ap some (update_here ar.val_tbl (get_hash key) val);
    old = λ x ne.
        get-ext ar replaced_main x (hit_same ar ok (get_hash key) present (get_hash x)) refl
          (λ e.
            update_other ar.val_tbl (get_hash key) (get_hash x) val
              (λ same. ne (e ∙ ap ar.key_tbl same ∙ sym is_key)))
          (map-ext replaced_main.val_tbl ar.val_tbl (overflow_of ar x) (λ j e.
            let found = find-some ar.ov_tbl_size max_cur_size ar.key_tbl x j e in
            update_other ar.val_tbl (get_hash key) j val
              (omega (arith, get_hash_bound key, found.0))));
    ok = record {
      room = ok.room;
      known = λ j le lt. hit_stays ar ok (get_hash key) _ (ok.known j le lt);
      counted = hit_counted ar ok (get_hash key);
    };
  }

  -- A key of the overflow table, at `i`.
  unfoldable pub replaced_overflow : ℕ → AssocAr
  replaced_overflow i = hit (get_hash key) (record ar { val_tbl = update ar.val_tbl i val })

  pub replaced_overflow-Added :
      (i : ℕ)
      → ar.hit_idx (get_hash key) ≢ minus_one
      → key ≢ ar.key_tbl (get_hash key)
      → overflow_of ar key ≡ some i
      → Added key val ar (replaced_overflow i)
  unfolding replaced_overflow
  replaced_overflow-Added i present not_main e =
      let (le, lt, is_key) = find-some ar.ov_tbl_size max_cur_size ar.key_tbl key i e in
      record {
        new =
            get-overflow (replaced_overflow i) key (hit_here ar ok (get_hash key)) not_main
            ∙ ap (Option.map (replaced_overflow i).val_tbl) e
            ∙ ap some (update_here ar.val_tbl i val);
        old = λ x ne.
            get-ext ar (replaced_overflow i) x (hit_same ar ok (get_hash key) present (get_hash x))
              refl
              (λ e'. update_other ar.val_tbl i (get_hash x) val (omega (arith, get_hash_bound x)))
              (map-ext (replaced_overflow i).val_tbl ar.val_tbl (overflow_of ar x) (λ j e'.
                let found = find-some ar.ov_tbl_size max_cur_size ar.key_tbl x j e' in
                update_other ar.val_tbl i j val
                  (λ same. ne (sym found.2 ∙ ap ar.key_tbl same ∙ is_key))));
        ok = record {
          room = ok.room;
          known = λ j le' lt'. hit_stays ar ok (get_hash key) _ (ok.known j le' lt');
          counted = hit_counted ar ok (get_hash key);
        };
      }
