-- ===== src/Shell/Assoc/Laws.antt =====
-- What `get` reads, and which tables it reads the same in.
use mathlib.Core.Option
use cs551os.Prelude.{
  ℕ, ◌+◌, ◌≤◌, ◌<◌, ◌≡◌, ◌≢◌, ◌∙◌, ap, sym, subst, refl, inl, inr, ◌⊎◌, true, false, Option, none,
  some, ◌==◌, ℤ, pos, minus_one, eq_int, Bool-cases, if_true, if_false, arith,
}
use native.Mathlib.Nat.{mod-lt}
use cs551os.Shell.Assoc.{
  String, AssocAr, str_eq, update, overflow_of, succ_int, get, get_hash, init, max_cur_size,
  max_ov_tbl_size,
}
use cs551os.Shell.Assoc.Find.{str_eq→≡, str_eq_refl, str_eq-≢, update_here, update_other}

-- The overflow table has room for its entries, which all have a hash that was hit, and a counter
-- is at -1 or not negative.
pub record Ok (ar : AssocAr) : Type 0 where
  pub room : ar.ov_tbl_size ≤ max_ov_tbl_size
  pub known :
      (j : ℕ)
      → max_cur_size ≤ j
      → j < max_cur_size + ar.ov_tbl_size
      → ar.hit_idx (get_hash (ar.key_tbl j)) ≢ minus_one
  pub counted : (i : ℕ) → (ar.hit_idx i ≡ minus_one) ⊎ ((n : ℕ) × (ar.hit_idx i ≡ pos n))

pub init-Ok : (keys vals : ℕ → String) → Ok (init keys vals)
unfolding init
init-Ok keys vals = record {
  room = omega arith;
  known = λ j le lt. absurd (omega arith);
  counted = λ i. inl refl;
}

pub get_hash_bound : (key : String) → get_hash key < max_cur_size
unfolding get_hash
get_hash_bound key = mod-lt _ (omega arith)

eq_int-≢ : (a b : ℤ) → a ≢ b → eq_int a b ≡ false
eq_int-≢ a b ne = ground arith

module _ (ar : AssocAr) (key : String) where
  pub get-absent : ar.hit_idx (get_hash key) ≡ minus_one → get ar key ≡ none
  unfolding get
  get-absent e = rw e refl

  pub get-main :
      ar.hit_idx (get_hash key) ≢ minus_one
      → key ≡ ar.key_tbl (get_hash key)
      → get ar key ≡ some (ar.val_tbl (get_hash key))
  unfolding get
  get-main ne e =
      if_false none _ (eq_int-≢ _ minus_one ne)
      ∙ if_true _ _ (subst (λ k. str_eq key k ≡ true) e (str_eq_refl key))

  pub get-overflow :
      ar.hit_idx (get_hash key) ≢ minus_one
      → key ≢ ar.key_tbl (get_hash key)
      → get ar key ≡ Option.map ar.val_tbl (overflow_of ar key)
  unfolding get
  get-overflow ne d = if_false none _ (eq_int-≢ _ minus_one ne) ∙ if_false _ _ (str_eq-≢ key _ d)

pub map-ext :
    (f g : ℕ → String) (o : Option ℕ)
    → ((j : ℕ) → o ≡ some j → f j ≡ g j)
    → Option.map f o ≡ Option.map g o
map-ext f g none h = refl
map-ext f g (some j) h = ap some (h j refl)

-- Tables that agree where `get` looks for `key`.
pub get-ext :
    (ar ar' : AssocAr) (key : String)
    → let h = get_hash key in
      eq_int (ar'.hit_idx h) minus_one ≡ eq_int (ar.hit_idx h) minus_one
      → ar'.key_tbl h ≡ ar.key_tbl h
      → (key ≡ ar.key_tbl h → ar'.val_tbl h ≡ ar.val_tbl h)
      → Option.map ar'.val_tbl (overflow_of ar' key) ≡ Option.map ar.val_tbl (overflow_of ar key)
      → get ar' key ≡ get ar key
unfolding get
get-ext ar ar' key e k v o =
    rw (e, k)
      (elim (Bool-cases (str_eq key (ar.key_tbl (get_hash key)))) [
        | inl same ↦ rw (v (str_eq→≡ key _ same), o)
        | inr other ↦ rw (other, o)
      ])

module _ (ar : AssocAr) (ok : Ok ar) (h : ℕ) where
  pub hit_here : update ar.hit_idx h (succ_int (ar.hit_idx h)) h ≢ minus_one
  hit_here e =
      let e' : succ_int (ar.hit_idx h) ≡ minus_one = sym (update_here ar.hit_idx h _) ∙ e in
      elim (ok.counted h) [
        | inl m ↦
            let bad : pos 0 ≡ minus_one = subst (λ z. succ_int z ≡ minus_one) m e' in
            absurd (ground arith)
        | inr (n, p) ↦
            let bad : pos (n + 1) ≡ minus_one = subst (λ z. succ_int z ≡ minus_one) p e' in
            absurd (ground arith)
      ]

  pub hit_stays :
      (i : ℕ)
      → ar.hit_idx i ≢ minus_one
      → update ar.hit_idx h (succ_int (ar.hit_idx h)) i ≢ minus_one
  hit_stays i ne e = elim (Bool-cases (i == h)) [
    | inl same ↦
        hit_here (
          subst (λ j. update ar.hit_idx h (succ_int (ar.hit_idx h)) j ≡ minus_one) (ground arith) e)
    | inr other ↦ ne (sym (update_other ar.hit_idx h i _ (ground arith)) ∙ e)
  ]

  pub hit_counted :
      (i : ℕ)
      → let hits = update ar.hit_idx h (succ_int (ar.hit_idx h)) in
        (hits i ≡ minus_one) ⊎ ((n : ℕ) × (hits i ≡ pos n))
  hit_counted i = elim (Bool-cases (i == h)) [
    | inl same ↦ elim (ok.counted h) [
      | inl m ↦ inr (0, if_true _ _ same ∙ ap succ_int m)
      | inr (n, p) ↦ inr (n + 1, if_true _ _ same ∙ ap succ_int p)
    ]
    | inr other ↦ elim (ok.counted i) [
      | inl m ↦ inl (if_false _ _ other ∙ m)
      | inr (n, p) ↦ inr (n, if_false _ _ other ∙ p)
    ]
  ]

  -- A counter that was hit before: the same are at -1 as before.
  pub hit_same :
      ar.hit_idx h ≢ minus_one
      → (i : ℕ)
      → eq_int (update ar.hit_idx h (succ_int (ar.hit_idx h)) i) minus_one
        ≡ eq_int (ar.hit_idx i) minus_one
  hit_same ne i = elim (Bool-cases (eq_int (ar.hit_idx i) minus_one)) [
    | inl m ↦
        let m' : ar.hit_idx i ≡ minus_one = ground arith in
        let other : i ≢ h = λ e. ne (subst (λ j. ar.hit_idx j ≡ minus_one) e m') in
        ap (λ z. eq_int z minus_one) (update_other ar.hit_idx h i _ other)
    | inr p ↦
        let stays : update ar.hit_idx h (succ_int (ar.hit_idx h)) i ≢ minus_one =
          hit_stays i (ground arith) in
        rw p (ground arith)
  ]
