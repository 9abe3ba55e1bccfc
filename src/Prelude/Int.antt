-- ===== src/Prelude/Int.antt =====
-- The C `int` as a signed number, with the Boolean tests that the code makes on it.
use Prim.Native.Nat.{ℕ, ◌-◌, ◌^◌}
use mathlib.Core.Path.{◌≡◌}
use mathlib.Core.Logic.{◌↔◌}
use mathlib.Core.Bool.{Bool, true, false}
use mathlib.Core.Option.{Option, none}
use mathlib.Core.List.{List}
use native.Mathlib.Omega.{arith}
use cs551os.Prelude.Tests.{◌==◌}
use cs551os.Prelude.Lists.{get_elem?}

-- `negsuc n` is -(n + 1).
pub data ℤ : Type 0 where
  pos : ℕ → ℤ
  negsuc : ℕ → ℤ

abbrev pub minus_one : ℤ
minus_one = negsuc 0

abbrev pub eq_int : ℤ → ℤ → Bool
eq_int (pos a) (pos b) = a == b
eq_int (negsuc a) (negsuc b) = a == b
eq_int (pos a) (negsuc b) = false
eq_int (negsuc a) (pos b) = false

abbrev pub is_neg : ℤ → Bool
is_neg (pos n) = false
is_neg (negsuc n) = true

-- `a[i]`: `none` is an access outside of the array.
abbrev pub at {ℓ} : {A : Type ℓ} → List A → ℤ → Option A
at xs (pos i) = get_elem? xs i
at xs (negsuc i) = none

-- The two's complement bit pattern of a 32-bit `int`.
abbrev pub word : ℤ → ℕ
word (pos n) = n
word (negsuc n) = 2 ^ 32 - 1 - n

pub eq_int_iff : (a b : ℤ) → (eq_int a b ≡ true) ↔ (a ≡ b)
eq_int_iff a b = ground arith

pub eq_int_refl : (a : ℤ) → eq_int a a ≡ true
eq_int_refl a = ground arith

pub eq_int_comm : (a b : ℤ) → eq_int a b ≡ eq_int b a
eq_int_comm a b = ground arith
