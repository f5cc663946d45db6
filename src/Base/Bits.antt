-- ===== src/Base/Bits.antt =====
-- Masks and `|` of disjoint fields as arithmetic, at every width.
use Prim.Native.Nat.{
  ℕ, zero, suc, ◌+◌, ◌-◌, ◌*◌, ◌/◌, ◌%◌, ◌^◌, ◌≤◌, ◌<◌, min, max, bit_and, bit_or, digits, bitwise,
  bit_and-bitwise, bit_or-bitwise,
}
use mathlib.Core.Path.{◌≡◌, refl, ap, ap₂, ◌∙◌}
use mathlib.Core.Bool.{Bool, true, ◌&&◌}
use betawise.Base.Tests.{◌==◌}
use native.Mathlib.Nat.{pow-suc, one-le-pow}
use native.Mathlib.Omega.{arith}

-- The recursion on digits that a native operation stands for needs no more fuel than its first
-- argument.
module _ (z : ℕ → ℕ) (f : ℕ → ℕ → ℕ) where
  digits_enough :
      (fuel more a b : ℕ) → a ≤ fuel → a ≤ more → digits z f fuel a b ≡ digits z f more a b
  digits_enough zero zero a b p q = refl
  digits_enough zero (suc more) zero b p q = refl
  digits_enough zero (suc more) (suc a) b p q = absurd (omega arith)
  digits_enough (suc fuel) zero zero b p q = refl
  digits_enough (suc fuel) zero (suc a) b p q = absurd (omega arith)
  digits_enough (suc fuel) (suc more) zero b p q = refl
  digits_enough (suc fuel) (suc more) (suc a) b p q =
      rw (digits_enough fuel more (suc a / 2) (b / 2) (omega arith) (omega arith))

  digits_halve :
      (a b : ℕ)
      → bitwise z f (suc a) b ≡ bitwise z f (suc a / 2) (b / 2) * 2 + f (suc a % 2) (b % 2)
  digits_halve a b =
      omega (arith, digits_enough a (suc a / 2) (suc a / 2) (b / 2) (omega arith) (omega arith))

-- One equation for the lowest digit.
pub bit_or_halve : (a b : ℕ) → bit_or a b ≡ bit_or (a / 2) (b / 2) * 2 + max (a % 2) (b % 2)
bit_or_halve zero b = simp bit_or-bitwise (omega arith)
bit_or_halve (suc a) b = simp bit_or-bitwise (digits_halve (λ y. y) max a b)

pub bit_and_halve : (a b : ℕ) → bit_and a b ≡ bit_and (a / 2) (b / 2) * 2 + min (a % 2) (b % 2)
bit_and_halve zero b = simp bit_and-bitwise (omega arith)
bit_and_halve (suc a) b = simp bit_and-bitwise (digits_halve (λ y. 0) min a b)

-- `|` and `&` with no bits, by recursion on a bound for the number.
bit_or-zero_below : (n a : ℕ) → a ≤ n → bit_or a 0 ≡ a
bit_or-zero_below n zero h = refl
bit_or-zero_below zero (suc a) h = absurd (omega arith)
bit_or-zero_below (suc n) (suc a) h =
    omega (arith, bit_or_halve (suc a) 0, bit_or-zero_below n (suc a / 2) (omega arith))

pub bit_or-zero : (a : ℕ) → bit_or a 0 ≡ a
bit_or-zero a = bit_or-zero_below a a (omega arith)

bit_or_zero_below : (n a : ℕ) → a ≤ n → bit_or 0 a ≡ a
bit_or_zero_below n zero h = refl
bit_or_zero_below zero (suc a) h = absurd (omega arith)
bit_or_zero_below (suc n) (suc a) h =
    omega (arith, bit_or_halve 0 (suc a), bit_or_zero_below n (suc a / 2) (omega arith))

pub zero-bit_or : (a : ℕ) → bit_or 0 a ≡ a
zero-bit_or a = bit_or_zero_below a a (omega arith)

zero_bit_and_below : (n b : ℕ) → b ≤ n → bit_and 0 b ≡ 0
zero_bit_and_below n zero h = refl
zero_bit_and_below zero (suc b) h = absurd (omega arith)
zero_bit_and_below (suc n) (suc b) h =
    omega (arith, bit_and_halve 0 (suc b), zero_bit_and_below n (suc b / 2) (omega arith))

bit_and_le_below : (n a b : ℕ) → a ≤ n → bit_and a b ≤ a
bit_and_le_below n zero b h = omega (arith, zero_bit_and_below b b (omega arith))
bit_and_le_below zero (suc a) b h = absurd (omega arith)
bit_and_le_below (suc n) (suc a) b h =
    omega (arith, bit_and_halve (suc a) b, bit_and_le_below n (suc a / 2) (b / 2) (omega arith))

pub bit_and_le : (a b : ℕ) → bit_and a b ≤ a
bit_and_le a b = bit_and_le_below a a b (omega arith)

bit_and-zero_below : (n a : ℕ) → a ≤ n → bit_and a 0 ≡ 0
bit_and-zero_below n zero h = refl
bit_and-zero_below zero (suc a) h = absurd (omega arith)
bit_and-zero_below (suc n) (suc a) h =
    omega (arith, bit_and_halve (suc a) 0, bit_and-zero_below n (suc a / 2) (omega arith))

pub bit_and-zero : (a : ℕ) → bit_and a 0 ≡ 0
bit_and-zero a = bit_and-zero_below a a (omega arith)

double_shift : (q k : ℕ) → q * 2 ^ suc k ≡ 2 * (q * 2 ^ k)
double_shift q k = omega (arith, ap (λ (t : ℕ). q * t) (pow-suc 2 k))

-- `(q << k) | r` is a sum when `r` has at most `k` bits.
pub bit_or-shift : (k q r : ℕ) → r < 2 ^ k → bit_or (q * 2 ^ k) r ≡ q * 2 ^ k + r
bit_or-shift zero q r h = ground (arith, bit_or-zero q)
bit_or-shift (suc k) q r h = ground (
  arith,
  double_shift q k,
  bit_or_halve (q * 2 ^ suc k) r,
  bit_or-shift k q (r / 2) (omega arith),
)

-- A mask of the low `k` bits keeps what lies below `2 ^ k`.
bit_and_low : (k q r : ℕ) → r < 2 ^ k → bit_and (q * 2 ^ k + r) (2 ^ k - 1) ≡ r
bit_and_low zero q r h = ground (arith, bit_and-zero (q * 1 + r))
bit_and_low (suc k) q r h = ground (
  arith,
  pow-suc 2 k,
  double_shift q k,
  bit_and_halve (q * 2 ^ suc k + r) (2 ^ suc k - 1),
  bit_and_low k q (r / 2) (omega arith),
)

pub bit_and_mask : (k a : ℕ) → bit_and a (2 ^ k - 1) ≡ a % 2 ^ k
bit_and_mask k a = ground (arith, one-le-pow k 2, bit_and_low k (a / 2 ^ k) (a % 2 ^ k))

-- `0x40 | (n & 0x3F)`.
pub or_and_six_bits : (n : ℕ) → bit_or 0x40 (bit_and n 0x3F) ≡ 64 + n % 64
or_and_six_bits n =
    omega (arith, ap (bit_or 0x40) (bit_and_mask 6 n), bit_or-shift 6 1 (n % 64) (omega arith))

pub bit_and_even : (n m : ℕ) → bit_and n (2 * m) ≡ 2 * bit_and (n / 2) m
bit_and_even n m = ground (arith, bit_and_halve n (2 * m))

-- `n & 7`, and `n & ~7` in 32 bits.
pub low_three_bits : (n : ℕ) → bit_and n 7 ≡ n % 8
low_three_bits n = bit_and_mask 3 n

pub clear_three_bits : (n : ℕ) → n < 2 ^ 32 → bit_and n 0xFFFFFFF8 ≡ n / 8 * 8
clear_three_bits n h = omega (
  arith,
  bit_and_even n 0x7FFFFFFC,
  bit_and_even (n / 2) 0x3FFFFFFE,
  bit_and_even (n / 2 / 2) 0x1FFFFFFF,
  bit_and_mask 29 (n / 2 / 2 / 2),
)

-- The two nibbles of a byte.
pub low_nibble : (n : ℕ) → bit_and n 0x0F ≡ n % 16
low_nibble n = bit_and_mask 4 n

pub high_nibble : (n : ℕ) → n < 256 → bit_and n 0xF0 ≡ n / 16 * 16
high_nibble n h = omega (
  arith,
  bit_and_even n 0x78,
  bit_and_even (n / 2) 0x3C,
  bit_and_even (n / 2 / 2) 0x1E,
  bit_and_even (n / 2 / 2 / 2) 0x0F,
  bit_and_mask 4 (n / 2 / 2 / 2 / 2),
)

-- Two functions that agree on all numbers below `n`, by evaluation.
pub agree_below : (ℕ → ℕ) → (ℕ → ℕ) → ℕ → Bool
agree_below f g zero = true
agree_below f g (suc n) = f n == g n && agree_below f g n

pub eq_of_agree_below :
    (f g : ℕ → ℕ) (n : ℕ) → agree_below f g n ≡ true → (i : ℕ) → i < n → f i ≡ g i
unfolding agree_below
eq_of_agree_below f g zero e i h = absurd (omega arith)
eq_of_agree_below f g (suc n) e i h = ground (arith, eq_of_agree_below f g n (ground arith) i)

-- On a `short` below 256: `n & ~7` and `n | 7`.
pub clear_low_three : (n : ℕ) → n < 256 → bit_and n 0xFFF8 ≡ n / 8 * 8
unfolding agree_below
clear_low_three = eq_of_agree_below (λ n. bit_and n 0xFFF8) (λ n. n / 8 * 8) 256 refl

pub set_low_three : (n : ℕ) → n < 256 → bit_or n 7 ≡ n / 8 * 8 + 7
unfolding agree_below
set_low_three = eq_of_agree_below (λ n. bit_or n 7) (λ n. n / 8 * 8 + 7) 256 refl

-- With the masks of 32 and of 64 bytes.
pub clear_low_five : (n : ℕ) → n < 32 → bit_and n 0xFFE0 ≡ 0
unfolding agree_below
clear_low_five = eq_of_agree_below (λ n. bit_and n 0xFFE0) (λ n. 0) 32 refl

pub clear_low_six : (n : ℕ) → n < 64 → bit_and n 0xFFC0 ≡ 0
unfolding agree_below
clear_low_six = eq_of_agree_below (λ n. bit_and n 0xFFC0) (λ n. 0) 64 refl

pub set_low_five : (n : ℕ) → n < 32 → bit_or n 31 ≡ 31
unfolding agree_below
set_low_five = eq_of_agree_below (λ n. bit_or n 31) (λ n. 31) 32 refl

pub set_low_six : (n : ℕ) → n < 64 → bit_or n 63 ≡ 63
unfolding agree_below
set_low_six = eq_of_agree_below (λ n. bit_or n 63) (λ n. 63) 64 refl

-- A low and a high nibble joined.
or_nibbles : (n : ℕ) → n < 256 → bit_or (n % 16) (n / 16 * 16) ≡ n
unfolding agree_below
or_nibbles = eq_of_agree_below (λ n. bit_or (n % 16) (n / 16 * 16)) (λ n. n) 256 refl

-- A byte whose high nibble is replaced, and one whose low nibble is.
pub replace_high : (b d : ℕ) → d < 16 → bit_or (bit_and b 0x0F) (d * 16) ≡ d * 16 + b % 16
replace_high b d h =
    ap (λ k. bit_or k (d * 16)) (low_nibble b)
    ∙ ap₂ bit_or (omega arith) (omega arith)
    ∙ or_nibbles (d * 16 + b % 16) (omega arith)

pub replace_low : (b d : ℕ) → b < 256 → d < 16 → bit_or (bit_and b 0xF0) d ≡ b / 16 * 16 + d
replace_low b d hb h = ap (λ k. bit_or k d) (high_nibble b hb) ∙ bit_or-shift 4 (b / 16) d h

-- Of two numbers of `k` bits, so is `|`.
pub bit_or-lt-pow : (k a b : ℕ) → a < 2 ^ k → b < 2 ^ k → bit_or a b < 2 ^ k
bit_or-lt-pow zero zero b ha hb = ground (arith, bit_or_halve zero b)
bit_or-lt-pow zero (suc a) b ha hb = absurd (omega arith)
bit_or-lt-pow (suc k) a b ha hb =
    let double = pow-suc 2 k in
    let ih = bit_or-lt-pow k (a / 2) (b / 2) (omega arith) (omega arith) in
    ground (arith, bit_or_halve a b)

pub bit_or_lt_byte : (a b : ℕ) → a < 256 → b < 256 → bit_or a b < 256
bit_or_lt_byte a b ha hb = bit_or-lt-pow 8 a b ha hb
