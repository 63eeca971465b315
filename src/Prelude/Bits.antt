-- ===== src/Prelude/Bits.antt =====
-- `x & (2 ^ k - 1)`, at every width.
use Prim.Native.Nat.{
  ℕ, zero, suc, ◌+◌, ◌-◌, ◌*◌, ◌/◌, ◌%◌, ◌^◌, ◌≤◌, ◌<◌, min, bit_and, digits, bit_and-bitwise,
}
use mathlib.Core.Path.{◌≡◌, refl, ap}
use native.Mathlib.Omega.{arith}
use native.Mathlib.Nat.{pow-suc}

abbrev common_digits : ℕ → ℕ → ℕ → ℕ
common_digits fuel a b = digits (λ b. zero) min fuel a b

-- More fuel than digits changes nothing.
common_digits_enough :
    (fuel more a b : ℕ) → a ≤ fuel → a ≤ more → common_digits fuel a b ≡ common_digits more a b
common_digits_enough zero zero a b p q = refl
common_digits_enough zero (suc more) zero b p q = refl
common_digits_enough zero (suc more) (suc a) b p q = absurd (omega arith)
common_digits_enough (suc fuel) zero zero b p q = refl
common_digits_enough (suc fuel) zero (suc a) b p q = absurd (omega arith)
common_digits_enough (suc fuel) (suc more) zero b p q = refl
common_digits_enough (suc fuel) (suc more) (suc a) b p q =
    omega (arith, common_digits_enough fuel more (suc a / 2) (b / 2) (omega arith) (omega arith))

bit_and-lowest : (a b : ℕ) → bit_and a b ≡ bit_and (a / 2) (b / 2) * 2 + min (a % 2) (b % 2)
bit_and-lowest zero b = omega (arith, bit_and-bitwise 0 b, bit_and-bitwise 0 (b / 2))
bit_and-lowest (suc a) b = omega (
  arith,
  bit_and-bitwise (suc a) b,
  bit_and-bitwise (suc a / 2) (b / 2),
  common_digits_enough a (suc a / 2) (suc a / 2) (b / 2) (omega arith) (omega arith),
)

bit_and-zero_below : (bound a : ℕ) → a ≤ bound → bit_and a 0 ≡ 0
bit_and-zero_below bound zero h = refl
bit_and-zero_below zero (suc a) h = absurd (omega arith)
bit_and-zero_below (suc bound) (suc a) h =
    omega (arith, bit_and-lowest (suc a) 0, bit_and-zero_below bound (suc a / 2) (omega arith))

-- `a & b` is at most `b`.
bit_and-le_below : (bound a b : ℕ) → a ≤ bound → bit_and a b ≤ b
bit_and-le_below bound zero b h = omega (arith, bit_and-bitwise 0 b)
bit_and-le_below zero (suc a) b h = absurd (omega arith)
bit_and-le_below (suc bound) (suc a) b h =
    omega
      (arith, bit_and-lowest (suc a) b, bit_and-le_below bound (suc a / 2) (b / 2) (omega arith))

pub bit_and-le : (a b : ℕ) → bit_and a b ≤ b
bit_and-le a b = bit_and-le_below a a b (omega arith)

pub pow_pos : (k : ℕ) → 0 < 2 ^ k
pow_pos zero = omega arith
pow_pos (suc k) = omega (arith, pow-suc 2 k, pow_pos k)

double_row : (q k : ℕ) → q * 2 ^ suc k ≡ 2 * (q * 2 ^ k)
double_row q k = omega (arith, ap (λ (row : ℕ). q * row) (pow-suc 2 k))

masked : (k q r : ℕ) → r < 2 ^ k → bit_and (q * 2 ^ k + r) (2 ^ k - 1) ≡ r
masked zero q r h = omega (arith, bit_and-zero_below (q * 2 ^ 0 + r) (q * 2 ^ 0 + r) (omega arith))
masked (suc k) q r h = ground (
  arith,
  pow-suc 2 k,
  pow_pos k,
  double_row q k,
  bit_and-lowest (q * 2 ^ suc k + r) (2 ^ suc k - 1),
  masked k q (r / 2) (omega (arith, pow-suc 2 k)),
)

pub bit_and-mask : (k a : ℕ) → bit_and a (2 ^ k - 1) ≡ a % 2 ^ k
bit_and-mask k a = ground (arith, pow_pos k, masked k (a / 2 ^ k) (a % 2 ^ k))
