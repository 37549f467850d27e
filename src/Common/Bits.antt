-- ===== src/Common/Bits.antt =====
-- `&`, `|` and `^` at variables: the law for the lowest digit, and the cases that the codec uses.
use Prim.Native.Nat.{
  ℕ, zero, suc, ◌+◌, ◌-◌, ◌*◌, ◌/◌, ◌%◌, ◌^◌, ◌≤◌, ◌<◌, min, max, differ, digits, bitwise, bit_and,
  bit_or, bit_xor, bit_and-bitwise, bit_or-bitwise, bit_xor-bitwise,
}
use mathlib.Core.Path.{◌≡◌, refl, ap}
use native.Mathlib.Nat.{le_refl, pow-suc, one-le-pow}
use native.Mathlib.Omega.{arith}

-- The count of digits left does not matter once it is enough.
module _ (z : ℕ → ℕ) (f : ℕ → ℕ → ℕ) where
  digits_enough : (b a : ℕ) (n m : ℕ) → a ≤ m → a ≤ n → digits z f n a b ≡ digits z f m a b
  digits_enough b zero zero zero q p = refl
  digits_enough b zero zero (suc m) q p = refl
  digits_enough b zero (suc n) zero q p = refl
  digits_enough b zero (suc n) (suc m) q p = refl
  digits_enough b (suc a) zero m q p = absurd (omega arith)
  digits_enough b (suc a) (suc n) zero q p = absurd (omega arith)
  digits_enough b (suc a) (suc n) (suc m) q p =
      rw (digits_enough (b / 2) (suc a / 2) n m (omega arith) (omega arith))

  lowest_digit :
      (b a : ℕ)
      → bitwise z f (suc a) b ≡ 2 * bitwise z f (suc a / 2) (b / 2) + f (suc a % 2) (b % 2)
  lowest_digit b a =
      omega (arith, digits_enough (b / 2) (suc a / 2) a (suc a / 2) (le_refl _) (omega arith))

and_step : (a b : ℕ) → bit_and a b ≡ 2 * bit_and (a / 2) (b / 2) + min (a % 2) (b % 2)
and_step zero b = simp bit_and-bitwise (omega arith)
and_step (suc a) b = simp bit_and-bitwise (lowest_digit (λ y. 0) min b a)

or_step : (a b : ℕ) → bit_or a b ≡ 2 * bit_or (a / 2) (b / 2) + max (a % 2) (b % 2)
or_step zero b = simp bit_or-bitwise (omega arith)
or_step (suc a) b = simp bit_or-bitwise (lowest_digit (λ y. y) max b a)

xor_step : (a b : ℕ) → bit_xor a b ≡ 2 * bit_xor (a / 2) (b / 2) + differ (a % 2) (b % 2)
xor_step zero b = simp bit_xor-bitwise (omega arith)
xor_step (suc a) b = simp bit_xor-bitwise (lowest_digit (λ y. y) differ b a)

zero-or : (b : ℕ) → bit_or 0 b ≡ b
zero-or b = bit_or-bitwise 0 b

zero-xor : (b : ℕ) → bit_xor 0 b ≡ b
zero-xor b = bit_xor-bitwise 0 b

or-zero_below : (n a : ℕ) → a ≤ n → bit_or a 0 ≡ a
or-zero_below n zero h = zero-or 0
or-zero_below zero (suc a) h = absurd (omega arith)
or-zero_below (suc n) (suc a) h =
    omega (arith, or_step (suc a) 0, or-zero_below n (suc a / 2) (omega arith))

or-zero : (a : ℕ) → bit_or a 0 ≡ a
or-zero a = or-zero_below a a (omega arith)

and-zero_below : (n a : ℕ) → a ≤ n → bit_and a 0 ≡ 0
and-zero_below n zero h = refl
and-zero_below zero (suc a) h = absurd (omega arith)
and-zero_below (suc n) (suc a) h =
    omega (arith, and_step (suc a) 0, and-zero_below n (suc a / 2) (omega arith))

and-zero : (a : ℕ) → bit_and a 0 ≡ 0
and-zero a = and-zero_below a a (omega arith)

differ-zero : (x : ℕ) → differ x 0 ≡ x
differ-zero zero = refl
differ-zero (suc x) = refl

xor-zero_below : (n a : ℕ) → a ≤ n → bit_xor a 0 ≡ a
xor-zero_below n zero h = zero-xor 0
xor-zero_below zero (suc a) h = absurd (omega arith)
xor-zero_below (suc n) (suc a) h =
    omega (
      arith,
      xor_step (suc a) 0,
      differ-zero (suc a % 2),
      xor-zero_below n (suc a / 2) (omega arith),
    )

pub xor-zero : (a : ℕ) → bit_xor a 0 ≡ a
xor-zero a = xor-zero_below a a (omega arith)

double_shift : (q k : ℕ) → q * 2 ^ suc k ≡ 2 * (q * 2 ^ k)
double_shift q k = omega (arith, ap (λ (t : ℕ). q * t) (pow-suc 2 k))

-- `|` of bits below `k` with a number shifted by `k` is their sum, in either order.
pub or_low_high : (k q r : ℕ) → r < 2 ^ k → bit_or r (q * 2 ^ k) ≡ r + q * 2 ^ k
or_low_high zero q r h = ground (arith, zero-or q)
or_low_high (suc k) q r h = ground (
  arith,
  or_step r (q * 2 ^ suc k),
  double_shift q k,
  pow-suc 2 k,
  or_low_high k q (r / 2) (omega arith),
)

pub or_high_low : (k q r : ℕ) → r < 2 ^ k → bit_or (q * 2 ^ k) r ≡ q * 2 ^ k + r
or_high_low zero q r h = ground (arith, or-zero q)
or_high_low (suc k) q r h = ground (
  arith,
  or_step (q * 2 ^ suc k) r,
  double_shift q k,
  pow-suc 2 k,
  or_high_low k q (r / 2) (omega arith),
)

mask_digits : (k : ℕ) → ((2 ^ suc k - 1) / 2 ≡ 2 ^ k - 1) × ((2 ^ suc k - 1) % 2 ≡ 1)
mask_digits k = omega (arith, pow-suc 2 k, one-le-pow k 2)

and_fields : (k q r : ℕ) → r < 2 ^ k → bit_and (q * 2 ^ k + r) (2 ^ k - 1) ≡ r
and_fields zero q r h = rw and-zero (omega arith)
and_fields (suc k) q r h = ground (
  arith,
  and_step (q * 2 ^ suc k + r) (2 ^ suc k - 1),
  mask_digits k,
  double_shift q k,
  pow-suc 2 k,
  and_fields k q (r / 2) (omega arith),
)

-- A mask of `k` ones is the remainder by `2 ^ k`.
pub and_mask : (k a : ℕ) → bit_and a (2 ^ k - 1) ≡ a % 2 ^ k
and_mask k a = ground (arith, one-le-pow k 2, and_fields k (a / 2 ^ k) (a % 2 ^ k))

differ_one : (x : ℕ) → x < 2 → differ x 1 ≡ 1 - x
differ_one zero h = refl
differ_one (suc zero) h = refl
differ_one (suc (suc x)) h = absurd (omega arith)

-- `^` with `k` ones is the complement.
pub xor_ones : (k a : ℕ) → a < 2 ^ k → bit_xor a (2 ^ k - 1) ≡ 2 ^ k - 1 - a
xor_ones zero a h = ground (arith, zero-xor 0)
xor_ones (suc k) a h = ground (
  arith,
  xor_step a (2 ^ suc k - 1),
  mask_digits k,
  pow-suc 2 k,
  one-le-pow k 2,
  differ_one (a % 2),
  xor_ones k (a / 2) (omega arith),
)

pub and_seven : (a : ℕ) → bit_and a 7 ≡ a % 8
and_seven a = and_mask 3 a

pub and_low_bits : (a : ℕ) → bit_and a 0x7f ≡ a % 128
and_low_bits a = and_mask 7 a

pub and_one : (a : ℕ) → bit_and a 1 ≡ a % 2
and_one a = and_mask 1 a

-- Bit 7 of a byte is the continuation flag.
pub and_top_bit : (a : ℕ) → a < 256 → bit_and a 0x80 ≡ a / 128 * 128
and_top_bit a h = ground (
  arith,
  and_step a 128,
  and_step (a / 2) 64,
  and_step (a / 2 / 2) 32,
  and_step (a / 2 / 2 / 2) 16,
  and_step (a / 2 / 2 / 2 / 2) 8,
  and_step (a / 2 / 2 / 2 / 2 / 2) 4,
  and_step (a / 2 / 2 / 2 / 2 / 2 / 2) 2,
  and_step (a / 2 / 2 / 2 / 2 / 2 / 2 / 2) 1,
  and-zero (a / 2 / 2 / 2 / 2 / 2 / 2 / 2 / 2),
)

pub or_top_bit : (a : ℕ) → a < 128 → bit_or a 0x80 ≡ a + 128
or_top_bit a h = or_low_high 7 1 a h
