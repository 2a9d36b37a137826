-- ===== src/Dhash/Xor.antt =====
-- Exclusive or, digit by digit.
use Prim.Native.Nat.{bit_xor, bit_or, bit_xor-bitwise, bit_or-bitwise, digits, differ, max}
use photo_swipe.Prelude.{ℕ, zero, suc, ◌+◌, ◌*◌, ◌/◌, ◌%◌, ◌^◌, ◌≤◌, ◌<◌, ◌≡◌, refl, ap, arith}

-- Any count of digits that is enough gives the same result.
digits_enough :
    (f : ℕ → ℕ → ℕ) (left m a b : ℕ)
    → a ≤ left
    → a ≤ m
    → digits (λ y. y) f left a b ≡ digits (λ y. y) f m a b
digits_enough f zero zero a b le le_m = refl
digits_enough f zero (suc m) zero b le le_m = refl
digits_enough f zero (suc m) (suc a) b le le_m = absurd (omega arith)
digits_enough f (suc left) zero zero b le le_m = refl
digits_enough f (suc left) zero (suc a) b le le_m = absurd (omega arith)
digits_enough f (suc left) (suc m) zero b le le_m = refl
digits_enough f (suc left) (suc m) (suc a) b le le_m =
    omega (arith, digits_enough f left m (suc a / 2) (b / 2) (omega arith) (omega arith))

bit_xor-zero : (b : ℕ) → bit_xor 0 b ≡ b
bit_xor-zero b = bit_xor-bitwise 0 b

pub bit_xor_step : (a b : ℕ) → bit_xor a b ≡ bit_xor (a / 2) (b / 2) * 2 + differ (a % 2) (b % 2)
bit_xor_step zero b = omega (arith, bit_xor-zero b, bit_xor-zero (b / 2))
bit_xor_step (suc a) b = omega (
  arith,
  bit_xor-bitwise (suc a) b,
  bit_xor-bitwise (suc a / 2) (b / 2),
  digits_enough differ a (suc a / 2) (suc a / 2) (b / 2) (omega arith) (omega arith),
)

bit_or-zero : (b : ℕ) → bit_or 0 b ≡ b
bit_or-zero b = bit_or-bitwise 0 b

bit_or_step : (a b : ℕ) → bit_or a b ≡ bit_or (a / 2) (b / 2) * 2 + max (a % 2) (b % 2)
bit_or_step zero b = omega (arith, bit_or-zero b, bit_or-zero (b / 2))
bit_or_step (suc a) b = omega (
  arith,
  bit_or-bitwise (suc a) b,
  bit_or-bitwise (suc a / 2) (b / 2),
  digits_enough max a (suc a / 2) (suc a / 2) (b / 2) (omega arith) (omega arith),
)

-- Or-ing the next higher bit into a word adds it.
pub bit_or-next : (k a : ℕ) → a < 2 ^ k → bit_or a (2 ^ k) ≡ a + 2 ^ k
bit_or-next zero zero h = bit_or-zero 1
bit_or-next zero (suc a) h = absurd (omega arith)
bit_or-next (suc k) a h = omega (
  arith,
  bit_or_step a (2 ^ suc k),
  ap (bit_or (a / 2)) (half k),
  bit_or-next k (a / 2) (omega arith),
)
  where
    half : (k : ℕ) → 2 ^ suc k / 2 ≡ 2 ^ k
    half k = omega arith
