-- ===== src/Base/Bits.antt =====
-- `|` of a low field and a shifted one is their sum, at every width.
use Prim.Native.Nat.{
  ℕ, zero, suc, ◌+◌, ◌*◌, ◌/◌, ◌%◌, ◌^◌, ◌≤◌, ◌<◌, max, bit_or, digits, bit_or-bitwise,
}
use mathlib.Core.Path.{◌≡◌, refl, ap}
use native.Mathlib.Nat.{pow-suc}
use native.Mathlib.Omega.{arith}

abbrev or_digits : ℕ → ℕ → ℕ → ℕ
or_digits n a b = digits (λ c. c) max n a b

-- Fuel above the first number is as good as any other.
or_digits_enough :
    (fuel more a b : ℕ) → (a ≤ fuel) × (a ≤ more) → or_digits fuel a b ≡ or_digits more a b
or_digits_enough zero zero a b h = refl
or_digits_enough zero (suc more) zero b h = refl
or_digits_enough (suc fuel) zero zero b h = refl
or_digits_enough (suc fuel) (suc more) zero b h = refl
or_digits_enough zero more (suc a) b (h, _) = absurd (omega arith)
or_digits_enough fuel zero (suc a) b (_, h) = absurd (omega arith)
or_digits_enough (suc fuel) (suc more) (suc a) b (h, k) =
    omega (arith, or_digits_enough fuel more (suc a / 2) (b / 2) (omega arith, omega arith))

zero-bit_or : (b : ℕ) → bit_or 0 b ≡ b
zero-bit_or b = bit_or-bitwise 0 b

bit_or_step : (a b : ℕ) → bit_or a b ≡ bit_or (a / 2) (b / 2) * 2 + max (a % 2) (b % 2)
bit_or_step zero b = omega (arith, zero-bit_or b, zero-bit_or (b / 2))
bit_or_step (suc a) b = omega (
  arith,
  bit_or-bitwise (suc a) b,
  bit_or-bitwise (suc a / 2) (b / 2),
  or_digits_enough a (suc a / 2) (suc a / 2) (b / 2) (omega arith, omega arith),
)

double-shift : (q k : ℕ) → q * 2 ^ suc k ≡ 2 * (q * 2 ^ k)
double-shift q k = omega (arith, ap (λ (t : ℕ). q * t) (pow-suc 2 k))

-- r | q << k, where r has k bits.
pub bit_or_low_high : (k r q : ℕ) → r < 2 ^ k → bit_or r (q * 2 ^ k) ≡ r + q * 2 ^ k
bit_or_low_high zero zero q h = omega (arith, zero-bit_or (q * 1))
bit_or_low_high zero (suc r) q h = absurd (omega arith)
bit_or_low_high (suc k) r q h = ground (
  arith,
  bit_or_step r (q * 2 ^ suc k),
  double-shift q k,
  pow-suc 2 k,
  bit_or_low_high k (r / 2) q,
)
