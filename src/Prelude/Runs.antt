-- ===== src/Prelude/Runs.antt =====
-- What a run of C code comes to: a value, undefined behaviour (an access through NULL or outside
-- of an array), or more rounds of a `while` loop than the fuel allows.
use mathlib.Core.Path.{◌≡◌, refl, ap, ◌∙◌}
use mathlib.Core.Bool.{Bool, true, false}
use cs551os.Prelude.Tests.{if◌then◌else◌}
use mathlib.Core.Option.{Option, none, some}
use mathlib.Core.Logic.{◌⊎◌, ◌≢◌, inl, inr}

pub data Run {ℓ} (A : Type ℓ) : Type ℓ where
  done : A → Run A
  fault : Run A
  out_of_fuel : Run A

infixl 5 ◌>>=◌
abbrev pub ◌>>=◌ {ℓ κ} : {A : Type ℓ} {B : Type κ} → Run A → (A → Run B) → Run B
done a >>= f = f a
fault >>= f = fault
out_of_fuel >>= f = out_of_fuel

-- An access that must succeed.
abbrev pub access {ℓ} : {A : Type ℓ} → Option A → Run A
access none = fault
access (some a) = done a

-- What holds of the value of a run that returns.
abbrev pub IfDone {ℓ κ} : {A : Type ℓ} → (A → Type κ) → Run A → Type κ
IfDone P (done a) = P a
IfDone P fault = Unit
IfDone P out_of_fuel = Unit

pub >>=-eq-done {ℓ κ} :
    {A : Type ℓ} {B : Type κ} (m : Run A) (f : A → Run B) {b : B}
    → (m >>= f) ≡ done b
    → (a : A) × (m ≡ done a) × (f a ≡ done b)
>>=-eq-done (done a) f h = (a, refl, h)
>>=-eq-done fault f h = cc
>>=-eq-done out_of_fuel f h = cc

pub Run-cases {ℓ} :
    {A : Type ℓ} (m : Run A) → (m ≡ fault) ⊎ ((m ≡ out_of_fuel) ⊎ ((a : A) × (m ≡ done a)))
Run-cases (done a) = inr (inr (a, refl))
Run-cases fault = inl refl
Run-cases out_of_fuel = inr (inl refl)

pub access-eq-done {ℓ} : {A : Type ℓ} (o : Option A) {a : A} → access o ≡ done a → o ≡ some a
access-eq-done none h = cc
access-eq-done (some b) h = cc

-- A run that gives a value with the property `P`.
abbrev pub Gives {ℓ κ} : {A : Type ℓ} → Run A → (A → Type κ) → Type (ℓ ⊔ κ)
Gives {A = A} r P = (a : A) × (r ≡ done a) × P a

pub Gives->>= {ℓ κ μ ν} :
    {A : Type ℓ} {B : Type κ} (r : Run A) (f : A → Run B) (P : A → Type μ) (Q : B → Type ν)
    → Gives r P
    → ((a : A) → P a → Gives (f a) Q)
    → Gives (r >>= f) Q
Gives->>= r f P Q (a, e, p) next = let (b, e', q) = next a p in (b, ap (λ s. s >>= f) e ∙ e', q)

pub Gives-if {ℓ κ} :
    {A : Type ℓ} (c : Bool) (r s : Run A) (P : A → Type κ)
    → (c ≡ true → Gives r P)
    → (c ≡ false → Gives s P)
    → Gives (if c then r else s) P
Gives-if true r s P then_case else_case = then_case refl
Gives-if false r s P then_case else_case = else_case refl

-- A run that does not run out of fuel.
abbrev pub Finishes {ℓ} : {A : Type ℓ} → Run A → Type ℓ
Finishes r = r ≢ out_of_fuel

pub done-Finishes {ℓ} : {A : Type ℓ} {a : A} → Finishes (done a)
done-Finishes h = cc

pub fault-Finishes {ℓ} : {A : Type ℓ} → Finishes {A = A} fault
fault-Finishes h = cc

pub >>=-Finishes {ℓ κ} :
    {A : Type ℓ} {B : Type κ} (m : Run A) (f : A → Run B)
    → Finishes m
    → ((a : A) → m ≡ done a → Finishes (f a))
    → Finishes (m >>= f)
>>=-Finishes (done a) f ne next = next a refl
>>=-Finishes fault f ne next = fault-Finishes
>>=-Finishes out_of_fuel f ne next = absurd (ne refl)

pub if-Finishes {ℓ} :
    {A : Type ℓ} (c : Bool) (r s : Run A)
    → (c ≡ true → Finishes r)
    → (c ≡ false → Finishes s)
    → Finishes (if c then r else s)
if-Finishes true r s then_case else_case = then_case refl
if-Finishes false r s then_case else_case = else_case refl

pub IfDone-if {ℓ κ} :
    {A : Type ℓ} (P : A → Type κ) (c : Bool) (r s : Run A)
    → IfDone P r
    → IfDone P s
    → IfDone P (if c then r else s)
IfDone-if P true r s then_case else_case = then_case
IfDone-if P false r s then_case else_case = else_case

-- A step behind a run goes into its parts.
pub >>=-after {ℓ κ μ} :
    {A : Type ℓ} {B : Type κ} {C : Type μ} (m : Run A) (f : A → Run B) (g : A → Run C)
    (h : B → Run C)
    → ((a : A) → g a ≡ (f a >>= h))
    → (m >>= g) ≡ ((m >>= f) >>= h)
>>=-after (done a) f g h same = same a
>>=-after fault f g h same = refl
>>=-after out_of_fuel f g h same = refl

pub if-after {ℓ κ} :
    {A : Type ℓ} {B : Type κ} (c : Bool) (r s : Run A) (r' s' : Run B) (h : A → Run B)
    → r' ≡ (r >>= h)
    → s' ≡ (s >>= h)
    → (if c then r' else s') ≡ ((if c then r else s) >>= h)
if-after true r s r' s' h then_case else_case = then_case
if-after false r s r' s' h then_case else_case = else_case
