-- ===== src/Words/Bits.antt =====
-- `x<<k | (1<<k - 1)` as arithmetic, from the digit recursion that the native operation stands for.
use Prim.Native.Nat.{digits, bit_or-bitwise}
use native.Mathlib.Nat.{pow-suc, one-le-pow}
use time_series_cardinality.Base.{
  ℕ, zero, suc, ◌+◌, ◌-◌, ◌*◌, ◌/◌, ◌%◌, ◌^◌, ◌≤◌, ◌≡◌, refl, ap, max, arith, bit_or,
}

-- The recursion on the digits of a disjunction, with fuel.
abbrev or_digits : ℕ → ℕ → ℕ → ℕ
or_digits fuel a b = digits (λ y. y) max fuel a b

or_digits_fuel : (f g a b : ℕ) → a ≤ f → a ≤ g → or_digits f a b ≡ or_digits g a b
or_digits_fuel zero zero a b hf hg = refl
or_digits_fuel zero (suc g) zero b hf hg = refl
or_digits_fuel (suc f) zero zero b hf hg = refl
or_digits_fuel (suc f) (suc g) zero b hf hg = refl
or_digits_fuel zero (suc g) (suc a) b hf hg = absurd (omega arith)
or_digits_fuel (suc f) zero (suc a) b hf hg = absurd (omega arith)
or_digits_fuel (suc f) (suc g) (suc a) b hf hg =
    omega (arith, or_digits_fuel f g (suc a / 2) (b / 2) (omega arith) (omega arith))

or_half : (a b : ℕ) → bit_or a b ≡ 2 * bit_or (a / 2) (b / 2) + max (a % 2) (b % 2)
or_half zero b = omega (arith, bit_or-bitwise 0 b, bit_or-bitwise 0 (b / 2))
or_half (suc a) b = omega (
  arith,
  or_digits_fuel a (suc a / 2) (suc a / 2) (b / 2) (omega arith) (omega arith),
  bit_or-bitwise (suc a / 2) (b / 2),
  bit_or-bitwise (suc a) b,
)

or_zero_below : (n a : ℕ) → a ≤ n → bit_or a 0 ≡ a
or_zero_below n zero h = refl
or_zero_below zero (suc a) h = absurd (omega arith)
or_zero_below (suc n) (suc a) h =
    omega (arith, or_zero_below n (suc a / 2) (omega arith), or_half (suc a) 0)

pub bit_or-ones : (k x : ℕ) → bit_or (x * 2 ^ k) (2 ^ k - 1) ≡ x * 2 ^ k + (2 ^ k - 1)
bit_or-ones zero x = ground (arith, or_zero_below x x (omega arith))
bit_or-ones (suc k) x = ground (
  arith,
  or_half (x * 2 ^ suc k) (2 ^ suc k - 1),
  bit_or-ones k x,
  pow-suc 2 k,
  one-le-pow 2 k,
  ap (λ (t : ℕ). x * t) (pow-suc 2 k),
)
