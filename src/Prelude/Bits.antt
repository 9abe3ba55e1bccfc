-- ===== src/Prelude/Bits.antt =====
-- Single bits of a word: `(x >> i) & 1`, `1 << i`, and the laws of `|`, `&` and `^` with one bit.
use Prim.Native.Nat.{
  ℕ, zero, suc, ◌+◌, ◌-◌, ◌*◌, ◌/◌, ◌%◌, ◌≤◌, ◌<◌, min, max, bit_and, bit_or, bit_xor, digits,
  differ, bit_and-bitwise, bit_or-bitwise, bit_xor-bitwise,
}
use mathlib.Core.Path.{◌≡◌, refl, ap}
use mathlib.Core.Logic.{◌⊎◌, inl, inr}
use native.Mathlib.Omega.{arith}
use cs551os.Prelude.Tests.{◌==◌, if◌then◌else◌}

-- `x >> i`, one place at a time.
abbrev pub shr : ℕ → ℕ → ℕ
shr x zero = x
shr x (suc i) = shr (x / 2) i

-- `1 << i`
abbrev pub bit : ℕ → ℕ
bit zero = 1
bit (suc i) = 2 * bit i

abbrev pub test_bit : ℕ → ℕ → ℕ
test_bit x i = shr x i % 2

-- The count of digits to go does not matter once it covers the first number.
digits_enough :
    (z : ℕ → ℕ) (f : ℕ → ℕ → ℕ) (n m a b : ℕ) → a ≤ n → a ≤ m → digits z f n a b ≡ digits z f m a b
digits_enough z f zero zero a b p q = refl
digits_enough z f zero (suc m) zero b p q = refl
digits_enough z f zero (suc m) (suc a) b p q = absurd (omega arith)
digits_enough z f (suc n) zero zero b p q = refl
digits_enough z f (suc n) zero (suc a) b p q = absurd (omega arith)
digits_enough z f (suc n) (suc m) zero b p q = refl
digits_enough z f (suc n) (suc m) (suc a) b p q =
    let ih = digits_enough z f n m (suc a / 2) (b / 2) (omega arith) (omega arith) in
    omega (arith, ih)

-- The lowest digit apart, for each of the three operations.
or_low : (a b : ℕ) → bit_or a b ≡ bit_or (a / 2) (b / 2) * 2 + max (a % 2) (b % 2)
or_low zero b = omega (arith, bit_or-bitwise 0 b, bit_or-bitwise 0 (b / 2))
or_low (suc a) b = omega (
  arith,
  bit_or-bitwise (suc a) b,
  bit_or-bitwise (suc a / 2) (b / 2),
  digits_enough (λ b. b) max a (suc a / 2) (suc a / 2) (b / 2) (omega arith) (omega arith),
)

and_low : (a b : ℕ) → bit_and a b ≡ bit_and (a / 2) (b / 2) * 2 + min (a % 2) (b % 2)
and_low zero b = omega (arith, bit_and-bitwise 0 b, bit_and-bitwise 0 (b / 2))
and_low (suc a) b = omega (
  arith,
  bit_and-bitwise (suc a) b,
  bit_and-bitwise (suc a / 2) (b / 2),
  digits_enough (λ b. zero) min a (suc a / 2) (suc a / 2) (b / 2) (omega arith) (omega arith),
)

xor_low : (a b : ℕ) → bit_xor a b ≡ bit_xor (a / 2) (b / 2) * 2 + differ (a % 2) (b % 2)
xor_low zero b = omega (arith, bit_xor-bitwise 0 b, bit_xor-bitwise 0 (b / 2))
xor_low (suc a) b = omega (
  arith,
  bit_xor-bitwise (suc a) b,
  bit_xor-bitwise (suc a / 2) (b / 2),
  digits_enough (λ b. b) differ a (suc a / 2) (suc a / 2) (b / 2) (omega arith) (omega arith),
)

split : (a : ℕ) → (a ≡ 0) ⊎ (0 < a)
split zero = inl refl
split (suc a) = inr (omega arith)

differ-zero : (a : ℕ) → differ a 0 ≡ a
differ-zero zero = refl
differ-zero (suc a) = refl

-- A second operand of zero, by induction on a bound of the first.
or_nothing : (n a : ℕ) → a ≤ n → bit_or a 0 ≡ a
or_nothing zero zero h = refl
or_nothing zero (suc a) h = absurd (omega arith)
or_nothing (suc n) a h = elim (split a) [
  | inl e ↦ rw e refl
  | inr p ↦ omega (arith, or_low a 0, or_nothing n (a / 2) (omega arith))
]

and_nothing : (n a : ℕ) → a ≤ n → bit_and a 0 ≡ 0
and_nothing zero zero h = refl
and_nothing zero (suc a) h = absurd (omega arith)
and_nothing (suc n) a h = elim (split a) [
  | inl e ↦ rw e refl
  | inr p ↦ omega (arith, and_low a 0, and_nothing n (a / 2) (omega arith))
]

xor_nothing : (n a : ℕ) → a ≤ n → bit_xor a 0 ≡ a
xor_nothing zero zero h = refl
xor_nothing zero (suc a) h = absurd (omega arith)
xor_nothing (suc n) a h = elim (split a) [
  | inl e ↦ rw e refl
  | inr p ↦ omega (arith, xor_low a 0, xor_nothing n (a / 2) (omega arith), differ-zero (a % 2))
]

-- One bit of the second operand: the halves and the lowest digits.
or_half : (x i : ℕ) → bit_or x (2 * bit i) / 2 ≡ bit_or (x / 2) (bit i)
or_half x i =
    let e : 2 * bit i / 2 ≡ bit i = omega arith in
    omega (arith, or_low x (2 * bit i), ap (bit_or (x / 2)) e)

or_parity : (x i : ℕ) → bit_or x (2 * bit i) % 2 ≡ x % 2
or_parity x i = omega (arith, or_low x (2 * bit i))

xor_half : (x i : ℕ) → bit_xor x (2 * bit i) / 2 ≡ bit_xor (x / 2) (bit i)
xor_half x i =
    let e : 2 * bit i / 2 ≡ bit i = omega arith in
    let z : 2 * bit i % 2 ≡ 0 = omega arith in
    omega (
      arith,
      xor_low x (2 * bit i),
      ap (bit_xor (x / 2)) e,
      ap (differ (x % 2)) z,
      differ-zero (x % 2),
    )

xor_parity : (x i : ℕ) → bit_xor x (2 * bit i) % 2 ≡ x % 2
xor_parity x i =
    let z : 2 * bit i % 2 ≡ 0 = omega arith in
    omega (arith, xor_low x (2 * bit i), ap (differ (x % 2)) z, differ-zero (x % 2))

differ-one : (a : ℕ) → a < 2 → differ a 1 ≡ 1 - a
differ-one zero h = refl
differ-one (suc zero) h = refl
differ-one (suc (suc a)) h = absurd (omega arith)

xor_one : (x : ℕ) → bit_xor x 1 ≡ x / 2 * 2 + (1 - x % 2)
xor_one x =
    omega (arith, xor_low x 1, xor_nothing (x / 2) (x / 2) (omega arith), differ-one (x % 2))

-- `x | (1 << i)` sets bit `i` and no other.
pub test_bit-bit_or :
    (x i j : ℕ) → test_bit (bit_or x (bit i)) j ≡ (if i == j then 1 else test_bit x j)
test_bit-bit_or x zero zero = omega (arith, or_low x 1)
test_bit-bit_or x zero (suc j) =
    let e : bit_or x 1 / 2 ≡ x / 2 = omega (arith, or_low x 1, or_nothing (x / 2) (x / 2)) in
    rw e (ground arith)
test_bit-bit_or x (suc i) zero = ground (arith, or_parity x i)
test_bit-bit_or x (suc i) (suc j) = rw (or_half x i) (ground (arith, test_bit-bit_or (x / 2) i j))

-- `x ^ (1 << i)` flips bit `i` and no other.
pub test_bit-bit_xor :
    (x i j : ℕ)
    → test_bit (bit_xor x (bit i)) j ≡ (if i == j then 1 - test_bit x j else test_bit x j)
test_bit-bit_xor x zero zero = omega (arith, xor_one x)
test_bit-bit_xor x zero (suc j) =
    let e : bit_xor x 1 / 2 ≡ x / 2 = omega (arith, xor_one x) in rw e (ground arith)
test_bit-bit_xor x (suc i) zero = ground (arith, xor_parity x i)
test_bit-bit_xor x (suc i) (suc j) =
    rw (xor_half x i) (ground (arith, test_bit-bit_xor (x / 2) i j))

-- `x & (1 << i)` is zero exactly when bit `i` is clear.
pub bit_and-bit : (x i : ℕ) → (bit_and x (bit i) == 0) ≡ (test_bit x i == 0)
bit_and-bit x zero =
    let low : bit_and x 1 ≡ x % 2 =
      omega (arith, and_low x 1, and_nothing (x / 2) (x / 2) (omega arith)) in
    rw low refl
bit_and-bit x (suc i) =
    let e : 2 * bit i / 2 ≡ bit i = omega arith in
    let low : bit_and x (2 * bit i) ≡ bit_and (x / 2) (bit i) * 2 =
      omega (arith, and_low x (2 * bit i), ap (bit_and (x / 2)) e) in
    rw low (ground (arith, bit_and-bit (x / 2) i))

-- Clearing the bit that was just set gives the word back.
pub bit_xor-bit_or : (x i : ℕ) → test_bit x i ≡ 0 → bit_xor (bit_or x (bit i)) (bit i) ≡ x
bit_xor-bit_or x zero h =
    omega (arith, xor_one (bit_or x 1), or_low x 1, or_nothing (x / 2) (x / 2) (omega arith))
bit_xor-bit_or x (suc i) h =
    let y = bit_or x (2 * bit i) in
    let ih : bit_xor (bit_or (x / 2) (bit i)) (bit i) ≡ x / 2 = bit_xor-bit_or (x / 2) i h in
    let half : bit_xor y (2 * bit i) / 2 ≡ x / 2 = rw (xor_half y i, or_half x i) ih in
    omega (arith, half, xor_parity y i, or_parity x i)
