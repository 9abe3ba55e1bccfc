-- ===== src/Shell/Assoc/Refine.antt =====
-- The table of aliases is a dictionary.
use cs551os.Prelude.{
  ℕ, ◌<◌, ◌≡◌, ◌≢◌, ◌∙◌, ap, sym, subst, refl, inl, inr, ◌↔◌, ◌⊎◌, true, false, Option, none, some,
  List, [], ◌∷◌, length, if◌then◌else◌, minus_one, eq_int, Run, done, ◌>>=◌, >>=-eq-done,
  Bool-cases, Option-cases, if_true, if_false, arith,
}
use cs551os.Shell.Assoc.{
  String, AssocAr, str_eq, overflow_of, get, get_hash, init, max_ov_tbl_size, add_overflow,
  add_found, add_main, add,
}
use cs551os.Shell.Assoc.Find.{str_eq→≡, str_eq_refl}
use cs551os.Shell.Assoc.Laws.{Ok, init-Ok, get-absent}
use cs551os.Shell.Assoc.Add.{
  Added, added_main, added_main-Added, replaced_main, replaced_main-Added, replaced_overflow,
  replaced_overflow-Added,
}
use cs551os.Shell.Assoc.Grow.{grown, grown-Added}

module _ (ar ar' : AssocAr) (key val : String) (ok : Ok ar) (e : add ar key val ≡ done ar') where
  pub add-main :
      eq_int (ar.hit_idx (get_hash key)) minus_one ≡ true → added_main ar ok key val ≡ ar'
  unfolding add add_main added_main
  add-main absent = ground arith

  pub add-same :
      eq_int (ar.hit_idx (get_hash key)) minus_one ≡ false
      → str_eq key (ar.key_tbl (get_hash key)) ≡ true
      → replaced_main ar ok key val ≡ ar'
  unfolding add replaced_main
  add-same present same = ground arith

  pub add-found :
      (i : ℕ)
      → eq_int (ar.hit_idx (get_hash key)) minus_one ≡ false
      → str_eq key (ar.key_tbl (get_hash key)) ≡ false
      → overflow_of ar key ≡ some i
      → replaced_overflow ar ok key val i ≡ ar'
  unfolding add add_found replaced_overflow
  add-found i present other found = ground arith

  pub add-grown :
      eq_int (ar.hit_idx (get_hash key)) minus_one ≡ false
      → str_eq key (ar.key_tbl (get_hash key)) ≡ false
      → overflow_of ar key ≡ none
      → (grown ar ok key val ≡ ar') × (ar.ov_tbl_size < max_ov_tbl_size)
  unfolding add add_found add_overflow grown
  add-grown present other missing = (ground arith, ground arith)

str_eq-false : (a b : String) → str_eq a b ≡ false → a ≢ b
str_eq-false a b differs e = absurd (ground (arith, ap (str_eq a) e, str_eq_refl a))

-- An `add` to a well-formed table that returns leaves it well-formed, with the value for the key,
-- and every other key as it was, whichever of the two tables holds it.
pub add-Added :
    (ar ar' : AssocAr) (key val : String) → Ok ar → add ar key val ≡ done ar' → Added key val ar ar'
add-Added ar ar' key val ok e = elim (Bool-cases (eq_int (ar.hit_idx (get_hash key)) minus_one)) [
  | inl absent ↦
      subst (Added key val ar) (add-main ar ar' key val ok e absent)
        (added_main-Added ar ok key val (ground arith))
  | inr present ↦ elim (Bool-cases (str_eq key (ar.key_tbl (get_hash key)))) [
    | inl same ↦
        subst (Added key val ar) (add-same ar ar' key val ok e present same)
          (replaced_main-Added ar ok key val (ground arith) (str_eq→≡ key _ same))
    | inr other ↦ elim (Option-cases (overflow_of ar key)) [
      | inl missing ↦
          let (is_grown, room) = add-grown ar ar' key val ok e present other missing in
          subst (Added key val ar) is_grown
            (grown-Added ar ok key val (ground arith) (str_eq-false key _ other) missing room)
      | inr (i, found) ↦
          subst (Added key val ar) (add-found ar ar' key val ok e i present other found) (
            replaced_overflow-Added ar ok key val i (ground arith) (str_eq-false key _ other) found)
    ]
  ]
]

-- Settings in turn, from the empty table on.
unfoldable pub add_all : AssocAr → List (String × String) → Run AssocAr
add_all ar [] = done ar
add_all ar ((key, val) ∷ rest) = do ar' ← add ar key val; add_all ar' rest

-- The last value that a list of settings gives to a key, or else `old`.
unfoldable pub setting : Option String → List (String × String) → String → Option String
setting old [] key = old
setting old ((k, v) ∷ rest) key = setting (if str_eq key k then some v else old) rest key

-- One setting goes into the table: the others then start from its value.
pub setting-add :
    (settings : List (String × String)) (ar ar' : AssocAr) (key val other : String)
    → Ok ar
    → add ar key val ≡ done ar'
    → setting (get ar' other) settings other ≡ setting (get ar other) ((key, val) ∷ settings) other
unfolding setting
setting-add settings ar ar' key val other ok e =
    let added = add-Added ar ar' key val ok e in
    ap (λ o. setting o settings other)
      (elim (Bool-cases (str_eq other key)) [
        | inl same ↦
            ap (get ar') (str_eq→≡ other key same) ∙ added.new ∙ sym (if_true (some val) _ same)
        | inr differs ↦
            added.old other (str_eq-false other key differs) ∙ sym (if_false (some val) _ differs)
      ])

add_all-setting :
    (settings : List (String × String)) (ar ar' : AssocAr)
    → Ok ar
    → add_all ar settings ≡ done ar'
    → (key : String) → get ar' key ≡ setting (get ar key) settings key
unfolding add_all setting
add_all-setting [] ar ar' ok e key =
    let same : ar ≡ ar' = ground arith in ap (λ a. get a key) (sym same)
add_all-setting ((k, v) ∷ rest) ar ar' ok e key =
    let (ar₁, one, more) = >>=-eq-done (add ar k v) _ e in
    add_all-setting rest ar₁ ar' (add-Added ar ar₁ k v ok one).ok more key
    ∙ setting-add rest ar ar₁ k v key ok one

-- After any settings that go into the table, `get` finds for every key the last value that they
-- give it, and nothing for a key that they do not name, whatever the memory held before.
pub add_all_lem :
    (keys vals : ℕ → String) (settings : List (String × String)) (ar : AssocAr)
    → add_all (init keys vals) settings ≡ done ar
    → (key : String) → get ar key ≡ setting none settings key
unfolding init
add_all_lem keys vals settings ar e key =
    add_all-setting settings (init keys vals) ar (init-Ok keys vals) e key
    ∙ ap (λ o. setting o settings key) (get-absent (init keys vals) key refl)

-- For a well-formed table and strings of less than 256 bytes, `add` returns exactly if the overflow
-- table has room, or the key's place in the main table is free, or the key has an entry.
pub add_iff :
    (ar : AssocAr) (key val : String)
    → Ok ar
    → length key < 256
    → length val < 256
    → ((ar' : AssocAr) × (add ar key val ≡ done ar')) ↔ (
        (ar.ov_tbl_size < max_ov_tbl_size)
        ⊎ ((ar.hit_idx (get_hash key) ≡ minus_one) ⊎ ((val' : String) × (get ar key ≡ some val'))))
unfolding add add_main add_found add_overflow get added_main replaced_main replaced_overflow grown
add_iff ar key val ok lk lv = elim (Bool-cases (eq_int (ar.hit_idx (get_hash key)) minus_one)) [
  | inl absent ↦ (λ h. inr (inl (ground arith)), λ h. (added_main ar ok key val, ground arith))
  | inr present ↦ elim (Bool-cases (str_eq key (ar.key_tbl (get_hash key)))) [
    | inl same ↦ (
      λ h. inr (inr (ar.val_tbl (get_hash key), ground arith)),
      λ h. (replaced_main ar ok key val, ground arith),
    )
    | inr other ↦ elim (Option-cases (overflow_of ar key)) [
      | inl missing ↦ (
        λ (ar', e). inl (add-grown ar ar' key val ok e present other missing).1,
        λ h. elim h [
          | inl room ↦ (grown ar ok key val, ground arith)
          | inr (inl absent) ↦ absurd (ground arith)
          | inr (inr (v, e)) ↦ absurd (ground arith)
        ],
      )
      | inr (i, found) ↦ (
        λ h. inr (inr (ar.val_tbl i, ground arith)),
        λ h. (replaced_overflow ar ok key val i, ground arith),
      )
    ]
  ]
]
