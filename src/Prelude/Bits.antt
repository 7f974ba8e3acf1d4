-- ===== src/Prelude/Bits.antt =====
-- Shifts and bitwise operations at variables: `|` of disjoint fields, `&` with a low mask and `^`
-- with a mask of ones, as arithmetic. The native operations stand for a recursion on binary digits.
use Prim.Native.Nat.{min, max, differ, digits, bitwise}
use Prim.Native.Nat.{bit_and-bitwise, bit_or-bitwise, bit_xor-bitwise}
use Prim.Native.Nat.{ℕ, zero, suc, ◌+◌, ◌-◌, ◌*◌, ◌/◌, ◌%◌, ◌^◌, ◌≤◌, ◌<◌, bit_and, bit_or, bit_xor}
use mathlib.Core.Path.{◌≡◌, refl, ap}
use mathlib.Core.Bool.{Bool, true, ◌&&◌}
use native.Mathlib.Omega.{arith}
use atlas_net.Prelude.Tests.{◌==◌, ==_iff}
use native.Mathlib.Nat.{pow-suc, one-le-pow}

module _ (z : ℕ → ℕ) (f : ℕ → ℕ → ℕ) where
  -- Any two amounts of fuel that cover the number give the same digits.
  digits_enough : (n m a b : ℕ) → a ≤ n → a ≤ m → digits z f n a b ≡ digits z f m a b
  digits_enough zero zero zero b p q = refl
  digits_enough zero zero (suc a) b p q = absurd (omega arith)
  digits_enough zero (suc m) zero b p q = refl
  digits_enough zero (suc m) (suc a) b p q = absurd (omega arith)
  digits_enough (suc n) zero zero b p q = refl
  digits_enough (suc n) zero (suc a) b p q = absurd (omega arith)
  digits_enough (suc n) (suc m) zero b p q = refl
  digits_enough (suc n) (suc m) (suc a) b p q =
      ap (λ t. t * 2 + f (suc a % 2) (b % 2))
        (digits_enough n m (suc a / 2) (b / 2) (omega arith) (omega arith))

  pub bitwise_low :
      (a b : ℕ)
      → bitwise z f (suc a) b ≡ bitwise z f (suc a / 2) (b / 2) * 2 + f (suc a % 2) (b % 2)
  bitwise_low a b =
      ap (λ t. t * 2 + f (suc a % 2) (b % 2))
        (digits_enough a (suc a / 2) (suc a / 2) (b / 2) (omega arith) (omega arith))

or_low : (a b : ℕ) → bit_or a b ≡ bit_or (a / 2) (b / 2) * 2 + max (a % 2) (b % 2)
or_low zero b = omega (arith, bit_or-bitwise 0 b, bit_or-bitwise 0 (b / 2))
or_low (suc a) b = simp bit_or-bitwise (bitwise_low (λ y. y) max a b)

and_low : (a b : ℕ) → bit_and a b ≡ bit_and (a / 2) (b / 2) * 2 + min (a % 2) (b % 2)
and_low zero b = omega (arith, bit_and-bitwise 0 b, bit_and-bitwise 0 (b / 2))
and_low (suc a) b = simp bit_and-bitwise (bitwise_low (λ y. 0) min a b)

xor_low : (a b : ℕ) → bit_xor a b ≡ bit_xor (a / 2) (b / 2) * 2 + differ (a % 2) (b % 2)
xor_low zero b = omega (arith, bit_xor-bitwise 0 b, bit_xor-bitwise 0 (b / 2))
xor_low (suc a) b = simp bit_xor-bitwise (bitwise_low (λ y. y) differ a b)

double_shift : (q k : ℕ) → q * 2 ^ suc k ≡ q * 2 ^ k * 2
double_shift q k = omega (arith, ap (λ (t : ℕ). q * t) (pow-suc 2 k))

half_shift : (q k : ℕ) → q * 2 ^ suc k / 2 ≡ q * 2 ^ k
half_shift q k = omega (arith, double_shift q k)

-- `v | (g << k)` where `v` stays below bit `k`.
pub bit_or_above : (k r q : ℕ) → r < 2 ^ k → bit_or r (q * 2 ^ k) ≡ r + q * 2 ^ k
bit_or_above zero zero q h = omega (arith, bit_or-bitwise 0 (q * 1))
bit_or_above zero (suc r) q h = absurd (omega arith)
bit_or_above (suc k) r q h = omega (
  arith,
  or_low r (q * 2 ^ suc k),
  double_shift q k,
  ap (bit_or (r / 2)) (half_shift q k),
  bit_or_above k (r / 2) q (omega (arith, pow-suc 2 k)),
)

or_zero : (n a : ℕ) → a ≤ n → bit_or a 0 ≡ a
or_zero n zero h = bit_or-bitwise 0 0
or_zero zero (suc a) h = absurd (omega arith)
or_zero (suc n) (suc a) h = omega (arith, or_low (suc a) 0, or_zero n (suc a / 2) (omega arith))

-- `(v << k) | b` where `b` fits the `k` bits that the shift has cleared.
pub bit_or_below : (k q r : ℕ) → r < 2 ^ k → bit_or (q * 2 ^ k) r ≡ q * 2 ^ k + r
bit_or_below zero q zero h =
    omega (arith, ap (λ t. bit_or t 0) {x = q * 1} {y = q} (omega arith), or_zero q q (omega arith))
bit_or_below zero q (suc r) h = absurd (omega arith)
bit_or_below (suc k) q r h = omega (
  arith,
  or_low (q * 2 ^ suc k) r,
  double_shift q k,
  ap (λ t. bit_or t (r / 2)) (half_shift q k),
  bit_or_below k q (r / 2) (omega (arith, pow-suc 2 k)),
)

and_zero : (n a : ℕ) → a ≤ n → bit_and a 0 ≡ 0
and_zero n zero h = bit_and-bitwise 0 0
and_zero zero (suc a) h = absurd (omega arith)
and_zero (suc n) (suc a) h = omega (arith, and_low (suc a) 0, and_zero n (suc a / 2) (omega arith))

half_mask : (k : ℕ) → ((2 ^ suc k - 1) / 2 ≡ 2 ^ k - 1) × ((2 ^ suc k - 1) % 2 ≡ 1)
half_mask k = omega (arith, pow-suc 2 k, one-le-pow k 2 (omega arith))

mod_double : (a p : ℕ) → 0 < p → a % (p * 2) ≡ a / 2 % p * 2 + a % 2
mod_double a p h = grind arith

-- `a & ((1 << k) - 1)`
pub bit_and_mask : (k a : ℕ) → bit_and a (2 ^ k - 1) ≡ a % 2 ^ k
bit_and_mask zero a = omega (arith, and_zero a a (omega arith))
bit_and_mask (suc k) a = omega (
  arith,
  and_low a (2 ^ suc k - 1),
  half_mask k,
  ap (bit_and (a / 2)) (half_mask k).0,
  bit_and_mask k (a / 2),
  mod_double a (2 ^ k) (one-le-pow k 2 (omega arith)),
  ap (λ (t : ℕ). a % t) (pow-suc 2 k),
)

flip_digit : (d : ℕ) → d < 2 → differ d 1 ≡ 1 - d
flip_digit zero h = refl
flip_digit (suc zero) h = refl
flip_digit (suc (suc d)) h = absurd (omega arith)

-- `a ^ ((1 << k) - 1)` turns every one of the `k` bits over.
pub bit_xor_ones : (k a : ℕ) → a < 2 ^ k → bit_xor a (2 ^ k - 1) ≡ 2 ^ k - 1 - a
bit_xor_ones zero zero h = refl
bit_xor_ones zero (suc a) h = absurd (omega arith)
bit_xor_ones (suc k) a h = omega (
  arith,
  xor_low a (2 ^ suc k - 1),
  half_mask k,
  ap (bit_xor (a / 2)) (half_mask k).0,
  ap (differ (a % 2)) (half_mask k).1,
  flip_digit (a % 2) (omega arith),
  pow-suc 2 k,
  bit_xor_ones k (a / 2) (omega (arith, pow-suc 2 k)),
)

keep_digit : (d : ℕ) → d < 2 → differ d 0 ≡ d
keep_digit zero h = refl
keep_digit (suc zero) h = refl
keep_digit (suc (suc d)) h = absurd (omega arith)

xor_zero_enough : (n a : ℕ) → a ≤ n → bit_xor a 0 ≡ a
xor_zero_enough n zero h = bit_xor-bitwise 0 0
xor_zero_enough zero (suc a) h = absurd (omega arith)
xor_zero_enough (suc n) (suc a) h = omega (
  arith,
  xor_low (suc a) 0,
  keep_digit (suc a % 2) (omega arith),
  xor_zero_enough n (suc a / 2) (omega arith),
)

pub bit_xor-zero : (a : ℕ) → bit_xor a 0 ≡ a
bit_xor-zero a = xor_zero_enough a a (omega arith)

-- Facts about one byte, checked at every value.
every : ℕ → (ℕ → Bool) → Bool
every zero p = true
every (suc n) p = p n && every n p

every_lt : (n : ℕ) (p : ℕ → Bool) (x : ℕ) → every n p ≡ true → x < n → p x ≡ true
unfolding every
every_lt zero p x h lt = absurd (omega arith)
every_lt (suc n) p x h lt = ground (arith, every_lt n p x)

top_bit_table : every 256 (λ b. bit_or b 0x80 == b % 128 + 128) ≡ true
unfolding every
top_bit_table = refl

pub set_top_bit : (b : ℕ) → b < 256 → bit_or b 0x80 ≡ b % 128 + 128
set_top_bit b h = (==_iff _ _).0 (every_lt 256 _ b top_bit_table h)

test_bit_table : every 256 (λ b. bit_and b 0x80 == b / 128 * 128) ≡ true
unfolding every
test_bit_table = refl

pub top_bit : (b : ℕ) → b < 256 → bit_and b 0x80 ≡ b / 128 * 128
top_bit b h = (==_iff _ _).0 (every_lt 256 _ b test_bit_table h)
