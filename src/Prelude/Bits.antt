-- ===== src/Prelude/Bits.antt =====
-- Exclusive or can be undone on either side: the facts that make a parity byte detect an error.
pub mod Or
use Prim.Native.Nat.{
  ℕ, zero, suc, ◌+◌, ◌*◌, ◌/◌, ◌%◌, ◌≤◌, ◌<◌, bit_xor, digits, differ, bit_xor-bitwise,
}
use mathlib.Core.Path.{◌≡◌, refl}
use native.Mathlib.Omega.{arith}

abbrev xor_digits : ℕ → ℕ → ℕ → ℕ
xor_digits n a b = digits (λ y. y) differ n a b

-- Any count of digits that covers the first number gives the same result.
xor_digits_fuel : (n m a b : ℕ) → a ≤ n → a ≤ m → xor_digits n a b ≡ xor_digits m a b
xor_digits_fuel zero zero a b p q = refl
xor_digits_fuel zero (suc m) zero b p q = refl
xor_digits_fuel zero (suc m) (suc a) b p q = absurd (omega arith)
xor_digits_fuel (suc n) zero zero b p q = refl
xor_digits_fuel (suc n) zero (suc a) b p q = absurd (omega arith)
xor_digits_fuel (suc n) (suc m) zero b p q = refl
xor_digits_fuel (suc n) (suc m) (suc a) b p q =
    omega (arith, xor_digits_fuel n m (suc a / 2) (b / 2) (omega arith) (omega arith))

zero-bit_xor : (b : ℕ) → bit_xor 0 b ≡ b
zero-bit_xor b = bit_xor-bitwise 0 b

differ_zero : (y : ℕ) → differ 0 y ≡ y
differ_zero y = refl

bit_xor_step : (a b : ℕ) → bit_xor a b ≡ bit_xor (a / 2) (b / 2) * 2 + differ (a % 2) (b % 2)
bit_xor_step zero b = omega (arith, zero-bit_xor b, zero-bit_xor (b / 2), differ_zero (b % 2))
bit_xor_step (suc a) b = omega (
  arith,
  bit_xor-bitwise (suc a) b,
  bit_xor-bitwise (suc a / 2) (b / 2),
  xor_digits_fuel a (suc a / 2) (suc a / 2) (b / 2) (omega arith) (omega arith),
)

-- On digits below 2, `differ` is a digit, and determines either argument from the other.
differ-lt : (x y : ℕ) → x < 2 → y < 2 → differ x y < 2
differ-lt zero y h k = k
differ-lt (suc zero) zero h k = omega arith
differ-lt (suc zero) (suc y) h k = omega arith
differ-lt (suc (suc x)) y h k = absurd (omega arith)

differ-injective_left : (x x' y : ℕ) → x < 2 → x' < 2 → y < 2 → differ x y ≡ differ x' y → x ≡ x'
differ-injective_left zero zero y h h' k e = refl
differ-injective_left zero (suc zero) zero h h' k e = e
differ-injective_left zero (suc zero) (suc y) h h' k e = absurd (omega arith)
differ-injective_left (suc zero) zero zero h h' k e = e
differ-injective_left (suc zero) zero (suc y) h h' k e = absurd (omega arith)
differ-injective_left (suc zero) (suc zero) y h h' k e = refl
differ-injective_left (suc (suc x)) x' y h h' k e = absurd (omega arith)
differ-injective_left x (suc (suc x')) y h h' k e = absurd (omega arith)

differ-injective_right : (x y y' : ℕ) → x < 2 → y < 2 → y' < 2 → differ x y ≡ differ x y' → y ≡ y'
differ-injective_right zero y y' h k k' e = e
differ-injective_right (suc zero) zero zero h k k' e = refl
differ-injective_right (suc zero) zero (suc zero) h k k' e = absurd (omega arith)
differ-injective_right (suc zero) (suc zero) zero h k k' e = absurd (omega arith)
differ-injective_right (suc zero) (suc zero) (suc zero) h k k' e = refl
differ-injective_right (suc zero) (suc (suc y)) y' h k k' e = absurd (omega arith)
differ-injective_right (suc zero) y (suc (suc y')) h k k' e = absurd (omega arith)
differ-injective_right (suc (suc x)) y y' h k k' e = absurd (omega arith)

-- Equal results have equal halves and equal last digits.
halves : (q q' d d' : ℕ) → d < 2 → d' < 2 → q * 2 + d ≡ q' * 2 + d' → q ≡ q'
halves q q' d d' h h' e = omega arith

last : (q q' d d' : ℕ) → d < 2 → d' < 2 → q * 2 + d ≡ q' * 2 + d' → d ≡ d'
last q q' d d' h h' e = omega arith

injective_left_fuel : (n a a' b : ℕ) → a ≤ n → a' ≤ n → bit_xor a b ≡ bit_xor a' b → a ≡ a'
injective_left_fuel zero a a' b p p' e = omega arith
injective_left_fuel (suc n) a a' b p p' e =
    let d = differ-lt (a % 2) (b % 2) (omega arith) (omega arith) in
    let d' = differ-lt (a' % 2) (b % 2) (omega arith) (omega arith) in
    let e' : bit_xor (a / 2) (b / 2) * 2 + differ (a % 2) (b % 2)
        ≡ bit_xor (a' / 2) (b / 2) * 2 + differ (a' % 2) (b % 2) =
      omega (arith, bit_xor_step a b, bit_xor_step a' b) in
    let up =
      injective_left_fuel n (a / 2) (a' / 2) (b / 2) (omega arith) (omega arith)
        (halves _ _ _ _ d d' e') in
    let low =
      differ-injective_left (a % 2) (a' % 2) (b % 2) (omega arith) (omega arith) (omega arith)
        (last _ _ _ _ d d' e') in
    omega (arith, up, low)

injective_right_fuel : (n a b b' : ℕ) → b ≤ n → b' ≤ n → bit_xor a b ≡ bit_xor a b' → b ≡ b'
injective_right_fuel zero a b b' p p' e = omega arith
injective_right_fuel (suc n) a b b' p p' e =
    let d = differ-lt (a % 2) (b % 2) (omega arith) (omega arith) in
    let d' = differ-lt (a % 2) (b' % 2) (omega arith) (omega arith) in
    let e' : bit_xor (a / 2) (b / 2) * 2 + differ (a % 2) (b % 2)
        ≡ bit_xor (a / 2) (b' / 2) * 2 + differ (a % 2) (b' % 2) =
      omega (arith, bit_xor_step a b, bit_xor_step a b') in
    let up =
      injective_right_fuel n (a / 2) (b / 2) (b' / 2) (omega arith) (omega arith)
        (halves _ _ _ _ d d' e') in
    let low =
      differ-injective_right (a % 2) (b % 2) (b' % 2) (omega arith) (omega arith) (omega arith)
        (last _ _ _ _ d d' e') in
    omega (arith, up, low)

pub bit_xor-injective_left : (a a' b : ℕ) → bit_xor a b ≡ bit_xor a' b → a ≡ a'
bit_xor-injective_left a a' b e = injective_left_fuel (a + a') a a' b (omega arith) (omega arith) e

pub bit_xor-injective_right : (a b b' : ℕ) → bit_xor a b ≡ bit_xor a b' → b ≡ b'
bit_xor-injective_right a b b' e =
    injective_right_fuel (b + b') a b b' (omega arith) (omega arith) e
