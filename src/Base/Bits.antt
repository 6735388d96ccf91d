-- ===== src/Base/Bits.antt =====
-- `&` with a mask of ones above zeros, and `|` of fields that share no bit, as arithmetic.
use Prim.Native.Nat.{
  ℕ, zero, suc, ◌+◌, ◌-◌, ◌*◌, ◌/◌, ◌%◌, ◌^◌, ◌≤◌, ◌<◌, min, max, bit_and, bit_or, digits,
  bit_and-bitwise, bit_or-bitwise,
}
use mathlib.Core.Path.{◌≡◌, refl, ap}
use native.Mathlib.Nat.{pow-suc, one-le-pow, div-div-eq-div-mul}
use native.Mathlib.Omega.{arith}

-- Any fuel that covers the first number gives the same digits.
module _ (rest : ℕ → ℕ) (digit : ℕ → ℕ → ℕ) where
  same_digits : (k j x y : ℕ) → x ≤ k → x ≤ j → digits rest digit k x y ≡ digits rest digit j x y
  same_digits zero zero x y hk hj = refl
  same_digits zero (suc j) zero y hk hj = refl
  same_digits (suc k) zero zero y hk hj = refl
  same_digits (suc k) (suc j) zero y hk hj = refl
  same_digits zero (suc j) (suc x) y hk hj = absurd (omega arith)
  same_digits (suc k) zero (suc x) y hk hj = absurd (omega arith)
  same_digits (suc k) (suc j) (suc x) y hk hj =
      omega (arith, same_digits k j (suc x / 2) (y / 2) (omega arith) (omega arith))

-- The lowest digit of each operation.
and_low : (x y : ℕ) → bit_and x y ≡ bit_and (x / 2) (y / 2) * 2 + min (x % 2) (y % 2)
and_low zero y = omega (arith, bit_and-bitwise 0 y, bit_and-bitwise 0 (y / 2))
and_low (suc x) y = omega (
  arith,
  bit_and-bitwise (suc x) y,
  bit_and-bitwise (suc x / 2) (y / 2),
  same_digits (λ _. 0) min x (suc x / 2) (suc x / 2) (y / 2) (omega arith) (omega arith),
)

or_low : (x y : ℕ) → bit_or x y ≡ bit_or (x / 2) (y / 2) * 2 + max (x % 2) (y % 2)
or_low zero y = omega (arith, bit_or-bitwise 0 y, bit_or-bitwise 0 (y / 2))
or_low (suc x) y = omega (
  arith,
  bit_or-bitwise (suc x) y,
  bit_or-bitwise (suc x / 2) (y / 2),
  same_digits (λ b. b) max x (suc x / 2) (suc x / 2) (y / 2) (omega arith) (omega arith),
)

and_zero_below : (k x : ℕ) → x ≤ k → bit_and x 0 ≡ 0
and_zero_below k zero h = refl
and_zero_below zero (suc x) h = absurd (omega arith)
and_zero_below (suc k) (suc x) h =
    omega (arith, and_low (suc x) 0, and_zero_below k (suc x / 2) (omega arith))

or_zero_below : (k x : ℕ) → x ≤ k → bit_or x 0 ≡ x
or_zero_below k zero h = refl
or_zero_below zero (suc x) h = absurd (omega arith)
or_zero_below (suc k) (suc x) h =
    omega (arith, or_low (suc x) 0, or_zero_below k (suc x / 2) (omega arith))

pub bit_and-zero : (x : ℕ) → bit_and x 0 ≡ 0
bit_and-zero x = and_zero_below x x (omega arith)

pub bit_or-zero : (x : ℕ) → bit_or x 0 ≡ x
bit_or-zero x = or_zero_below x x (omega arith)

double_pow : (m k : ℕ) → m * 2 ^ suc k ≡ 2 * (m * 2 ^ k)
double_pow m k = omega (arith, ap (λ (t : ℕ). m * t) (pow-suc 2 k))

-- `(m << k) | r` is a sum where `r` fits below the shift.
pub bit_or-shift : (k m r : ℕ) → r < 2 ^ k → bit_or (m * 2 ^ k) r ≡ m * 2 ^ k + r
bit_or-shift zero m r h = ground (arith, bit_or-zero m)
bit_or-shift (suc k) m r h =
    ground (arith, or_low (m * 2 ^ suc k) r, double_pow m k, pow-suc 2 k, bit_or-shift k m (r / 2))

-- A mask of `k` low ones keeps the remainder by `2 ^ k`.
low_ones : (k m r : ℕ) → r < 2 ^ k → bit_and (m * 2 ^ k + r) (2 ^ k - 1) ≡ r
low_ones zero m r h = ground (arith, bit_and-zero (m * 1 + r))
low_ones (suc k) m r h = ground (
  arith,
  and_low (m * 2 ^ suc k + r) (2 ^ suc k - 1),
  double_pow m k,
  pow-suc 2 k,
  one-le-pow k 2,
  low_ones k m (r / 2),
)

pub bit_and-ones : (k x : ℕ) → bit_and x (2 ^ k - 1) ≡ x % 2 ^ k
bit_and-ones k x = ground (arith, one-le-pow k 2, low_ones k (x / 2 ^ k) (x % 2 ^ k))

-- A mask that ends in `k` zeros leaves the low `k` bits out.
pub bit_and-shift : (k x m : ℕ) → bit_and x (m * 2 ^ k) ≡ bit_and (x / 2 ^ k) m * 2 ^ k
bit_and-shift zero x m = ground arith
bit_and-shift (suc k) x m = ground (
  arith,
  and_low x (m * 2 ^ suc k),
  double_pow m k,
  double_pow (bit_and (x / 2 ^ suc k) m) k,
  div-div-eq-div-mul x 2 (2 ^ k),
  pow-suc 2 k,
  bit_and-shift k (x / 2) m,
)
