-- ===== src/ByteUtils/Or.antt =====
-- The bitwise or of byte_utils.c, of numbers that share no bit.
use Prim.Native.Nat.{digits, max, bit_or-bitwise}
use stm8flash.Common.{ℕ, zero, suc, ◌+◌, ◌*◌, ◌^◌, ◌/◌, ◌<◌, ◌≤◌, ◌≡◌, refl, arith, bit_or}

abbrev or_digits : ℕ → ℕ → ℕ → ℕ
or_digits n a b = digits (λ b. b) max n a b

double : (k c : ℕ) → c * 2 ^ suc k ≡ c * 2 ^ k * 2
double k c = grind arith

digits_above : (n k a b c : ℕ) → a < 2 ^ k → b ≡ c * 2 ^ k → a ≤ n → or_digits n a b ≡ a + b
digits_above zero k a b c h e g = omega arith
digits_above (suc n) k zero b c h e g = omega arith
digits_above (suc n) zero (suc a) b c h e g = absurd (omega arith)
digits_above (suc n) (suc k) (suc a) b c h e g =
    let halves = digits_above n k (suc a / 2) (b / 2) c in
    omega (arith, double k c, halves (omega arith) (omega (arith, double k c)) (omega arith))

digits_below : (n k a b c : ℕ) → b < 2 ^ k → a ≡ c * 2 ^ k → a ≤ n → or_digits n a b ≡ a + b
digits_below zero k a b c h e g = omega arith
digits_below (suc n) k zero b c h e g = omega arith
digits_below (suc n) zero (suc a) b c h e g = omega (
  arith,
  digits_below n zero (suc a / 2) (b / 2) (suc a / 2) (omega arith) (omega arith) (omega arith),
)
digits_below (suc n) (suc k) (suc a) b c h e g =
    let halves = digits_below n k (suc a / 2) (b / 2) c in
    omega (arith, double k c, halves (omega arith) (omega (arith, double k c)) (omega arith))

-- A number below 2 ^ k and a multiple of 2 ^ k share no bit.
pub bit_or_above : (k a c : ℕ) → a < 2 ^ k → bit_or a (c * 2 ^ k) ≡ a + c * 2 ^ k
bit_or_above k a c h =
    omega
      (arith, bit_or-bitwise a (c * 2 ^ k), digits_above a k a (c * 2 ^ k) c h refl (omega arith))

pub bit_or_below : (k b c : ℕ) → b < 2 ^ k → bit_or (c * 2 ^ k) b ≡ c * 2 ^ k + b
bit_or_below k b c h = omega (
  arith,
  bit_or-bitwise (c * 2 ^ k) b,
  digits_below (c * 2 ^ k) k (c * 2 ^ k) b c h refl (omega arith),
)
