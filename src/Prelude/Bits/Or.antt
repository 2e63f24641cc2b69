-- ===== src/Prelude/Bits/Or.antt =====
-- Inclusive or of numbers with no digit in common is their sum.
use Prim.Native.Nat.{
  ℕ, zero, suc, ◌+◌, ◌*◌, ◌/◌, ◌%◌, ◌^◌, ◌≤◌, ◌<◌, max, bit_or, digits, bit_or-bitwise,
}
use mathlib.Core.Path.{◌≡◌, refl, ap}
use native.Mathlib.Nat.{pow-suc}
use native.Mathlib.Omega.{arith}

abbrev or_digits : ℕ → ℕ → ℕ → ℕ
or_digits n a b = digits (λ y. y) max n a b

or_digits_fuel : (n m a b : ℕ) → a ≤ n → a ≤ m → or_digits n a b ≡ or_digits m a b
or_digits_fuel zero zero a b p q = refl
or_digits_fuel zero (suc m) zero b p q = refl
or_digits_fuel zero (suc m) (suc a) b p q = absurd (omega arith)
or_digits_fuel (suc n) zero zero b p q = refl
or_digits_fuel (suc n) zero (suc a) b p q = absurd (omega arith)
or_digits_fuel (suc n) (suc m) zero b p q = refl
or_digits_fuel (suc n) (suc m) (suc a) b p q =
    omega (arith, or_digits_fuel n m (suc a / 2) (b / 2) (omega arith) (omega arith))

zero-bit_or : (b : ℕ) → bit_or 0 b ≡ b
zero-bit_or b = bit_or-bitwise 0 b

bit_or_step : (a b : ℕ) → bit_or a b ≡ bit_or (a / 2) (b / 2) * 2 + max (a % 2) (b % 2)
bit_or_step zero b = omega (arith, zero-bit_or b, zero-bit_or (b / 2))
bit_or_step (suc a) b = omega (
  arith,
  bit_or-bitwise (suc a) b,
  bit_or-bitwise (suc a / 2) (b / 2),
  or_digits_fuel a (suc a / 2) (suc a / 2) (b / 2) (omega arith) (omega arith),
)

bit_or-zero_fuel : (n a : ℕ) → a ≤ n → bit_or a 0 ≡ a
bit_or-zero_fuel zero zero h = zero-bit_or 0
bit_or-zero_fuel zero (suc a) h = absurd (omega arith)
bit_or-zero_fuel (suc n) zero h = zero-bit_or 0
bit_or-zero_fuel (suc n) (suc a) h =
    omega (arith, bit_or_step (suc a) 0, bit_or-zero_fuel n (suc a / 2) (omega arith))

-- The high digits of one number and the low digits of the other.
pub bit_or-add : (m x y : ℕ) → y < 2 ^ m → bit_or (x * 2 ^ m) y ≡ x * 2 ^ m + y
bit_or-add zero x y h =
    let none_left : y ≡ 0 = omega arith in
    rw none_left (omega (arith, bit_or-zero_fuel (x * 1) (x * 1) (omega arith)))
bit_or-add (suc m) x y h =
    let double : x * 2 ^ suc m ≡ x * 2 ^ m * 2 = rw (pow-suc 2 m) (regroup x (2 ^ m)) in
    let small : y < 2 ^ m * 2 = omega (arith, pow-suc 2 m) in
    omega (
      arith,
      double,
      bit_or_step (x * 2 ^ m * 2) y,
      ap (λ (a : ℕ). bit_or a y) double,
      halved (x * 2 ^ m),
      bit_or-add m x (y / 2) (omega arith),
      ap (λ (a : ℕ). bit_or a (y / 2)) (halved (x * 2 ^ m)),
    )
  where
    regroup : (x p : ℕ) → x * (p * 2) ≡ x * p * 2
    regroup x p = grind arith

    halved : (p : ℕ) → p * 2 / 2 ≡ p
    halved p = omega arith

pub bit_or-add_bytes : (n x y : ℕ) → y < 256 ^ n → bit_or (x * 256 ^ n) y ≡ x * 256 ^ n + y
bit_or-add_bytes n x y h = let e = power n in rw e (bit_or-add (n * 8) x y (rw (← e) h))
  where
    eight : (n : ℕ) → suc n * 8 ≡ n * 8 + 2 + 2 + 2 + 2
    eight n = omega arith

    two_bits : (k : ℕ) → 2 ^ (k + 2) ≡ 2 ^ k * 4
    two_bits k =
        let e : k + 2 ≡ suc (suc k) = omega arith in
        rw e (omega (arith, pow-suc 2 (suc k), pow-suc 2 k))

    power : (n : ℕ) → 256 ^ n ≡ 2 ^ (n * 8)
    power zero = refl
    power (suc n) = omega (
      arith,
      power n,
      pow-suc 256 n,
      ap (λ (k : ℕ). 2 ^ k) (eight n),
      two_bits (n * 8),
      two_bits (n * 8 + 2),
      two_bits (n * 8 + 2 + 2),
      two_bits (n * 8 + 2 + 2 + 2),
    )
