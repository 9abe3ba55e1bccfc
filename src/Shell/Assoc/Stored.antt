-- ===== src/Shell/Assoc/Stored.antt =====
-- What the main table holds: keys at their hashes, with a property of all the settings.
use cs551os.Prelude.{
  ℕ, ◌+◌, ◌≤◌, ◌<◌, ◌≡◌, ◌≢◌, ◌∙◌, ap, refl, sym, subst, inl, inr, ◌==◌, List, [], ◌∷◌, minus_one,
  eq_int, done, >>=-eq-done, Bool-cases, Option-cases, arith,
}
use cs551os.Shell.Assoc.{
  String, AssocAr, str_eq, update, overflow_of, succ_int, get_hash, init, max_cur_size, add,
}
use cs551os.Shell.Assoc.Find.{str_eq→≡, update_here, update_other, find-some}
use cs551os.Shell.Assoc.Laws.{Ok, init-Ok, get_hash_bound}
use cs551os.Shell.Assoc.Add.{added_main, replaced_main, replaced_overflow}
use cs551os.Shell.Assoc.Grow.{grown}
use cs551os.Shell.Assoc.Refine.{add-main, add-same, add-found, add-grown, add-Added, add_all}

module _ (P : String → String → Type 0) where
  -- An entry that was hit has its key's hash for its index.
  abbrev pub Stored : AssocAr → Type 0
  Stored ar =
      (i : ℕ)
      → i < max_cur_size
      → ar.hit_idx i ≢ minus_one
      → P (ar.key_tbl i) (ar.val_tbl i) × (get_hash (ar.key_tbl i) ≡ i)

  -- A table that differs in one entry.
  Stored-one :
      (ar ar' : AssocAr) (h : ℕ)
      → Stored ar
      → P (ar'.key_tbl h) (ar'.val_tbl h)
      → get_hash (ar'.key_tbl h) ≡ h
      → ((i : ℕ)
          → i < max_cur_size
          → i ≢ h
          → (ar'.key_tbl i ≡ ar.key_tbl i)
            × (ar'.val_tbl i ≡ ar.val_tbl i)
            × (ar'.hit_idx i ≡ ar.hit_idx i))
      → Stored ar'
  Stored-one ar ar' h stored here hash others i lt present = elim (Bool-cases (i == h)) [
    | inl same ↦
        let is_h : i ≡ h = ground arith in
        subst (λ j. P (ar'.key_tbl j) (ar'.val_tbl j) × (get_hash (ar'.key_tbl j) ≡ j)) (sym is_h)
          (here, hash)
    | inr other ↦
        let (keys, vals, hits) = others i lt (ground arith) in
        rw (keys, vals) (stored i lt (λ e. present (hits ∙ e)))
  ]

  module _ (ar : AssocAr) (ok : Ok ar) (stored : Stored ar) (key val : String) where
    added_main-Stored : P key val → Stored (added_main ar ok key val)
    unfolding added_main
    added_main-Stored new =
        let h = get_hash key in
        Stored-one ar (added_main ar ok key val) h stored
          (rw (update_here ar.key_tbl h key, update_here ar.val_tbl h val) new)
          (ap get_hash (update_here ar.key_tbl h key))
          (λ i lt ne. (
            update_other ar.key_tbl h i key ne,
            update_other ar.val_tbl h i val ne,
            update_other ar.hit_idx h i (succ_int (ar.hit_idx h)) ne,
          ))

    replaced_main-Stored :
        P key val → key ≡ ar.key_tbl (get_hash key) → Stored (replaced_main ar ok key val)
    unfolding replaced_main
    replaced_main-Stored new is_key =
        let h = get_hash key in
        Stored-one ar (replaced_main ar ok key val) h stored
          (rw (update_here ar.val_tbl h val) (subst (λ k. P k val) is_key new))
          (ap get_hash (sym is_key))
          (λ i lt ne. (
            refl,
            update_other ar.val_tbl h i val ne,
            update_other ar.hit_idx h i (succ_int (ar.hit_idx h)) ne,
          ))

    replaced_overflow-Stored :
        (j : ℕ)
        → max_cur_size ≤ j
        → ar.hit_idx (get_hash key) ≢ minus_one
        → Stored (replaced_overflow ar ok key val j)
    unfolding replaced_overflow
    replaced_overflow-Stored j le present =
        let h = get_hash key in
        let (here, hash) = stored h (get_hash_bound key) present in
        let keeps : (i : ℕ) → i < max_cur_size → update ar.val_tbl j val i ≡ ar.val_tbl i =
          λ i lt. update_other ar.val_tbl j i val (omega arith) in
        Stored-one ar (replaced_overflow ar ok key val j) h stored
          (rw (keeps h (get_hash_bound key)) here) hash
          (λ i lt ne. (refl, keeps i lt, update_other ar.hit_idx h i (succ_int (ar.hit_idx h)) ne))

    grown-Stored : ar.hit_idx (get_hash key) ≢ minus_one → Stored (grown ar ok key val)
    unfolding grown
    grown-Stored present =
        let h = get_hash key in
        let j = max_cur_size + ar.ov_tbl_size in
        let (here, hash) = stored h (get_hash_bound key) present in
        let key_keeps : (i : ℕ) → i < max_cur_size → update ar.key_tbl j key i ≡ ar.key_tbl i =
          λ i lt. update_other ar.key_tbl j i key (omega arith) in
        let val_keeps : (i : ℕ) → i < max_cur_size → update ar.val_tbl j val i ≡ ar.val_tbl i =
          λ i lt. update_other ar.val_tbl j i val (omega arith) in
        Stored-one ar (grown ar ok key val) h stored
          (rw (key_keeps h (get_hash_bound key), val_keeps h (get_hash_bound key)) here)
          (ap get_hash (key_keeps h (get_hash_bound key)) ∙ hash)
          (λ i lt ne. (
            key_keeps i lt,
            val_keeps i lt,
            update_other ar.hit_idx h i (succ_int (ar.hit_idx h)) ne,
          ))

  pub add-Stored :
      (ar ar' : AssocAr) (key val : String)
      → Ok ar
      → Stored ar
      → P key val
      → add ar key val ≡ done ar'
      → Stored ar'
  add-Stored ar ar' key val ok stored new e =
      elim (Bool-cases (eq_int (ar.hit_idx (get_hash key)) minus_one)) [
        | inl absent ↦
            subst Stored (add-main ar ar' key val ok e absent)
              (added_main-Stored ar ok stored key val new)
        | inr present ↦ elim (Bool-cases (str_eq key (ar.key_tbl (get_hash key)))) [
          | inl same ↦
              subst Stored (add-same ar ar' key val ok e present same)
                (replaced_main-Stored ar ok stored key val new (str_eq→≡ key _ same))
          | inr other ↦ elim (Option-cases (overflow_of ar key)) [
            | inl missing ↦
                subst Stored (add-grown ar ar' key val ok e present other missing).0
                  (grown-Stored ar ok stored key val (ground arith))
            | inr (i, found) ↦ subst Stored (add-found ar ar' key val ok e i present other found) (
                replaced_overflow-Stored ar ok stored key val i
                  (find-some ar.ov_tbl_size max_cur_size ar.key_tbl key i found).0 (ground arith))
          ]
        ]
      ]

  -- Every setting of the list has the property.
  abbrev pub AllOf : List (String × String) → Type 0
  AllOf [] = Unit {0}
  AllOf ((key, val) ∷ rest) = P key val × AllOf rest

  add_all-Stored :
      (settings : List (String × String)) (ar ar' : AssocAr)
      → Ok ar
      → Stored ar
      → AllOf settings
      → add_all ar settings ≡ done ar'
      → Stored ar'
  unfolding add_all
  add_all-Stored [] ar ar' ok stored all e =
      let same : ar ≡ ar' = ground arith in subst Stored same stored
  add_all-Stored ((k, v) ∷ rest) ar ar' ok stored (one, all) e =
      let (ar₁, first, more) = >>=-eq-done (add ar k v) _ e in
      add_all-Stored rest ar₁ ar' (add-Added ar ar₁ k v ok first).ok
        (add-Stored ar ar₁ k v ok stored one first) all more

  pub init-Stored :
      (keys vals : ℕ → String) (settings : List (String × String)) (ar : AssocAr)
      → AllOf settings
      → add_all (init keys vals) settings ≡ done ar
      → Stored ar
  unfolding init
  init-Stored keys vals settings ar all e =
      add_all-Stored settings (init keys vals) ar (init-Ok keys vals)
        (λ i lt present. absurd (present refl)) all e

-- A first key with its hash leaves the other counters alone.
pub add-hits :
    (ar ar' : AssocAr) (key val : String) (i : ℕ)
    → Ok ar
    → ar.hit_idx (get_hash key) ≡ minus_one
    → add ar key val ≡ done ar'
    → i ≢ get_hash key
    → ar'.hit_idx i ≡ ar.hit_idx i
unfolding added_main
add-hits ar ar' key val i ok absent e ne =
    let is_main : added_main ar ok key val ≡ ar' = add-main ar ar' key val ok e (ground arith) in
    ap (λ t. t.hit_idx i) (sym is_main)
    ∙ update_other ar.hit_idx (get_hash key) i (succ_int (ar.hit_idx (get_hash key))) ne
