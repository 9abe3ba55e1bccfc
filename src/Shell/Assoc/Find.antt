-- ===== src/Shell/Assoc/Find.antt =====
-- The search through the overflow table, and the comparison of strings.
use cs551os.Prelude.{
  ℕ, zero, suc, ◌+◌, ◌≤◌, ◌<◌, ◌≡◌, ◌≢◌, ◌∙◌, ap, sym, subst, refl, inl, inr, true, false, none,
  some, [], ◌∷◌, ◌==◌, if◌then◌else◌, Bool-cases, if_true, if_false, arith,
}
use cs551os.Shell.Assoc.{String, str_eq, update, find}

pub str_eq→≡ : (a b : String) → str_eq a b ≡ true → a ≡ b
str_eq→≡ [] [] e = refl
str_eq→≡ [] (y ∷ ys) e = absurd (ground arith)
str_eq→≡ (x ∷ xs) [] e = absurd (ground arith)
str_eq→≡ (x ∷ xs) (y ∷ ys) e = elim (Bool-cases (x == y)) [
  | inl h ↦
      let same : x ≡ y = ground arith in
      let rest : xs ≡ ys = str_eq→≡ xs ys (ground arith) in rw (same, rest) refl
  | inr h ↦ absurd (ground arith)
]

pub str_eq_refl : (a : String) → str_eq a a ≡ true
str_eq_refl [] = refl
str_eq_refl (x ∷ xs) = ground (arith, str_eq_refl xs)

pub str_eq-≢ : (a b : String) → a ≢ b → str_eq a b ≡ false
str_eq-≢ a b ne = elim (Bool-cases (str_eq a b)) [
  | inl e ↦ absurd (ne (str_eq→≡ a b e))
  | inr e ↦ e
]

pub update_here {ℓ} : {A : Type ℓ} (f : ℕ → A) (i : ℕ) (v : A) → update f i v i ≡ v
update_here f i v = if_true v (f i) (ground arith)

pub update_other {ℓ} : {A : Type ℓ} (f : ℕ → A) (i j : ℕ) (v : A) → j ≢ i → update f i v j ≡ f j
update_other f i j v ne = if_false v (f j) (ground arith)

-- The search reads the entries that it searches, and no others.
pub find-ext :
    (n i : ℕ) (f g : ℕ → String) (key : String)
    → ((j : ℕ) → i ≤ j → j < i + n → f j ≡ g j)
    → find n i f key ≡ find n i g key
unfolding find
find-ext zero i f g key h = refl
find-ext (suc n) i f g key h =
    let here : f i ≡ g i = h i (omega arith) (omega arith) in
    let rest : find n (i + 1) f key ≡ find n (i + 1) g key =
      find-ext n (i + 1) f g key (λ j le lt. h j (omega arith) (omega arith)) in
    rw (here, rest) refl

pub find-some :
    (n i : ℕ) (f : ℕ → String) (key : String) (j : ℕ)
    → find n i f key ≡ some j
    → (i ≤ j) × (j < i + n) × (f j ≡ key)
unfolding find
find-some zero i f key j e = absurd (ground arith)
find-some (suc n) i f key j e = elim (Bool-cases (str_eq key (f i))) [
  | inl h ↦
      let same : key ≡ f i = str_eq→≡ key (f i) h in
      let at_i : i ≡ j = ground arith in
      (omega arith, omega arith, subst (λ l. f l ≡ key) at_i (sym same))
  | inr h ↦
      let (le, lt, same) = find-some n (i + 1) f key j (sym (if_false (some i) _ h) ∙ e) in
      (omega arith, omega arith, same)
]

-- One more entry: it is found if none before it is.
pub find-snoc_none :
    (n i : ℕ) (f : ℕ → String) (key : String)
    → find n i f key ≡ none
    → find (suc n) i f key ≡ (if str_eq key (f (i + n)) then some (i + n) else none)
unfolding find
find-snoc_none zero i f key e = let same : i + 0 ≡ i = omega arith in rw same refl
find-snoc_none (suc n) i f key e = elim (Bool-cases (str_eq key (f i))) [
  | inl h ↦ absurd (ground arith)
  | inr h ↦
      let same : i + 1 + n ≡ i + suc n = omega arith in
      if_false (some i) _ h
      ∙ find-snoc_none n (i + 1) f key (sym (if_false (some i) _ h) ∙ e)
      ∙ ap (λ l. if str_eq key (f l) then some l else none) same
]

pub find-snoc_some :
    (n i : ℕ) (f : ℕ → String) (key : String) (j : ℕ)
    → find n i f key ≡ some j
    → find (suc n) i f key ≡ some j
unfolding find
find-snoc_some zero i f key j e = absurd (ground arith)
find-snoc_some (suc n) i f key j e = elim (Bool-cases (str_eq key (f i))) [
  | inl h ↦ if_true (some i) _ h ∙ sym (if_true (some i) _ h) ∙ e
  | inr h ↦
      if_false (some i) _ h ∙ find-snoc_some n (i + 1) f key j (sym (if_false (some i) _ h) ∙ e)
]
