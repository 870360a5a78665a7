-- ===== src/Base/Bits.antt =====
-- `i & (2^k - 1)` is `i % 2^k`, at every width: how the queues wrap their indices.
use Prim.Native.Nat.{digits, bit_and-bitwise}
use native.Mathlib.Nat.{pow-suc, one-le-pow}
use libseff.Base.{
  ℕ, zero, suc, ◌+◌, ◌-◌, ◌*◌, ◌/◌, ◌%◌, ◌^◌, ◌≤◌, ◌<◌, min, bit_and, ◌≡◌, ap, ◌∙◌, arith,
}

-- The digits of a mask of `k` ones select the remainder `r`; the number is given by its quotient
-- and remainder, and `fuel` bounds the digits read.
masked_digits :
    (fuel k q r v : ℕ)
    → v ≤ fuel
    → r < 2 ^ k
    → v ≡ q * 2 ^ k + r
    → digits (λ _. zero) min fuel v (2 ^ k - 1) ≡ r
masked_digits zero k q r zero le fits e = omega arith
masked_digits zero k q r (suc v) le fits e = absurd (omega arith)
masked_digits (suc fuel) k q r zero le fits e = omega arith
masked_digits (suc fuel) zero q r (suc v) le fits e =
    ground (arith, masked_digits fuel zero (suc v / 2) 0 (suc v / 2))
masked_digits (suc fuel) (suc k) q r (suc v) le fits e = ground (
  arith,
  pow-suc 2 k,
  one-le-pow k 2,
  ap (λ (t : ℕ). q * t) (pow-suc 2 k),
  masked_digits fuel k q (r / 2) (suc v / 2),
)

pub bit_and_mask : (k a : ℕ) → bit_and a (2 ^ k - 1) ≡ a % 2 ^ k
bit_and_mask k a =
    bit_and-bitwise a (2 ^ k - 1)
    ∙ masked_digits a k (a / 2 ^ k) (a % 2 ^ k) a (omega arith) (grind (arith, one-le-pow k 2))
        (grind arith)

-- A power of two below another is at most its half.
pub two_pow_half : (a b : ℕ) → 2 ^ a < 2 ^ b → 2 ^ a * 2 ≤ 2 ^ b
two_pow_half zero zero h = absurd (omega arith)
two_pow_half zero (suc b) h = omega (arith, pow-suc 2 b, one-le-pow b 2)
two_pow_half (suc a) zero h = absurd (omega (arith, one-le-pow (suc a) 2))
two_pow_half (suc a) (suc b) h =
    omega
      (arith, pow-suc 2 a, pow-suc 2 b, two_pow_half a b (omega (arith, pow-suc 2 a, pow-suc 2 b)))

-- The digits of a number that a mask of one bit selects, the number given by its quotient and
-- remainder at that bit.
single_digit :
    (fuel k c r v : ℕ)
    → v ≤ fuel
    → r < 2 ^ k
    → v ≡ c * 2 ^ k + r
    → digits (λ _. zero) min fuel v (2 ^ k) ≡ c % 2 * 2 ^ k
single_digit zero k zero r zero le fits e = omega arith
single_digit zero k (suc c) r zero le fits e = absurd (omega (arith, one-le-pow k 2))
single_digit zero k c r (suc v) le fits e = absurd (omega arith)
single_digit (suc fuel) k zero r zero le fits e = omega arith
single_digit (suc fuel) k (suc c) r zero le fits e = absurd (omega (arith, one-le-pow k 2))
single_digit (suc fuel) zero c r (suc v) le fits e =
    ground (arith, masked_digits fuel zero (suc v / 2) 0 (suc v / 2))
single_digit (suc fuel) (suc k) c r (suc v) le fits e = ground (
  arith,
  pow-suc 2 k,
  one-le-pow k 2,
  ap (λ (t : ℕ). c * t) (pow-suc 2 k),
  ap (λ (t : ℕ). c % 2 * t) (pow-suc 2 k),
  single_digit fuel k c (r / 2) (suc v / 2),
)

-- `a & (1 << k)`
pub bit_and_bit : (k a : ℕ) → bit_and a (2 ^ k) ≡ a / 2 ^ k % 2 * 2 ^ k
bit_and_bit k a =
    bit_and-bitwise a (2 ^ k)
    ∙ single_digit a k (a / 2 ^ k) (a % 2 ^ k) a (omega arith) (grind (arith, one-le-pow k 2))
        (grind arith)
