-- ===== src/Prelude/Bits.antt =====
-- Single bits of a word: what `x | 1 << b` sets and what `x & 1 << b` tests.
use Prim.Native.Nat.{
  ℕ, zero, suc, ◌+◌, ◌*◌, ◌/◌, ◌%◌, ◌^◌, ◌≤◌, ◌<◌, min, max, bit_and, bit_or, digits,
  bit_and-bitwise, bit_or-bitwise,
}
use mathlib.Core.Path.{◌≡◌, refl, ap, ◌∙◌}
use mathlib.Core.Bool.{Bool, true, false, not}
use native.Mathlib.Omega.{arith}
use native.Mathlib.Nat.{pow-suc}
use rdfcache_k.Prelude.Tests.{◌==◌, if◌then◌else◌}

-- The rounds on the lowest digits that the operations stand for: `z` is what is left when the first
-- number has no digit more, and `f` joins two digits.
module _ (z : ℕ → ℕ) (f : ℕ → ℕ → ℕ) where
  enough_rounds : (x y n m : ℕ) → x ≤ n → x ≤ m → digits z f n x y ≡ digits z f m x y
  enough_rounds zero y zero zero h k = refl
  enough_rounds zero y zero (suc m) h k = refl
  enough_rounds zero y (suc n) zero h k = refl
  enough_rounds zero y (suc n) (suc m) h k = refl
  enough_rounds (suc x) y zero m h k = absurd (omega arith)
  enough_rounds (suc x) y (suc n) zero h k = absurd (omega arith)
  enough_rounds (suc x) y (suc n) (suc m) h k =
      let next = suc x / 2 in
      let rest = enough_rounds next (y / 2) n m (omega arith) (omega arith) in omega (arith, rest)

half_rounds :
    (z : ℕ → ℕ) (f : ℕ → ℕ → ℕ) (x y : ℕ)
    → digits z f x (suc x / 2) y ≡ digits z f (suc x / 2) (suc x / 2) y
half_rounds z f x y = enough_rounds z f (suc x / 2) y x (suc x / 2) (omega arith) (omega arith)

bit_or-no_digit : (y : ℕ) → bit_or 0 y ≡ y
bit_or-no_digit y = bit_or-bitwise 0 y

bit_and-no_digit : (y : ℕ) → bit_and 0 y ≡ 0
bit_and-no_digit y = bit_and-bitwise 0 y

bit_or_halves : (x y : ℕ) → bit_or x y ≡ 2 * bit_or (x / 2) (y / 2) + max (x % 2) (y % 2)
bit_or_halves zero y = omega (arith, bit_or-no_digit (y / 2), bit_or-no_digit y)
bit_or_halves (suc x) y =
    let rounds = half_rounds (λ b. b) max x (y / 2) in
    omega (arith, rounds, bit_or-bitwise (suc x / 2) (y / 2), bit_or-bitwise (suc x) y)

bit_and_halves : (x y : ℕ) → bit_and x y ≡ 2 * bit_and (x / 2) (y / 2) + min (x % 2) (y % 2)
bit_and_halves zero y = omega (arith, bit_and-no_digit (y / 2), bit_and-no_digit y)
bit_and_halves (suc x) y =
    let rounds = half_rounds (λ b. zero) min x (y / 2) in
    omega (arith, rounds, bit_and-bitwise (suc x / 2) (y / 2), bit_and-bitwise (suc x) y)

-- The digit of `x` at position `k`, counted from the lowest.
pub test_bit : ℕ → ℕ → Bool
test_bit x zero = x % 2 == 1
test_bit x (suc k) = test_bit (x / 2) k

zero-test_bit : (k : ℕ) → test_bit 0 k ≡ false
unfolding test_bit
zero-test_bit zero = refl
zero-test_bit (suc k) = zero-test_bit k

pub test_bit_zero : (k : ℕ) → test_bit 0 k ≡ false
test_bit_zero = zero-test_bit

bit_or-zero_below : (bound x : ℕ) → x ≤ bound → bit_or x 0 ≡ x
bit_or-zero_below bound zero h = refl
bit_or-zero_below zero (suc x) h = absurd (omega arith)
bit_or-zero_below (suc bound) (suc x) h =
    let half = bit_or-zero_below bound (suc x / 2) (omega arith) in
    omega (arith, half, bit_or_halves (suc x) 0)

bit_or-zero : (x : ℕ) → bit_or x 0 ≡ x
bit_or-zero x = bit_or-zero_below x x (omega arith)

bit_and-zero_below : (bound x : ℕ) → x ≤ bound → bit_and x 0 ≡ 0
bit_and-zero_below bound zero h = refl
bit_and-zero_below zero (suc x) h = absurd (omega arith)
bit_and-zero_below (suc bound) (suc x) h =
    let half = bit_and-zero_below bound (suc x / 2) (omega arith) in
    omega (arith, half, bit_and_halves (suc x) 0)

bit_and-no_mask : (x : ℕ) → bit_and x 0 ≡ 0
bit_and-no_mask x = bit_and-zero_below x x (omega arith)

-- `x & 1 << k` is zero exactly when digit `k` of `x` is.
pub bit_and-test_bit : (k x : ℕ) → (bit_and x (2 ^ k) == 0) ≡ not (test_bit x k)
unfolding test_bit
bit_and-test_bit zero x = ground (arith, bit_and_halves x 1, bit_and-no_mask (x / 2))
bit_and-test_bit (suc k) x =
    ground (arith, pow-suc 2 k, bit_and_halves x (2 ^ k * 2), bit_and-test_bit k (x / 2))

half-bit_or_one : (x : ℕ) → bit_or x 1 / 2 ≡ x / 2
half-bit_or_one x = omega (arith, bit_or_halves x 1, bit_or-zero (x / 2))

bit_or_double : (x p : ℕ) → bit_or x (p * 2) ≡ bit_or (x / 2) p * 2 + x % 2
bit_or_double x p = ground (arith, bit_or_halves x (p * 2))

half-bit_or-suc : (x b : ℕ) → bit_or x (2 ^ suc b) / 2 ≡ bit_or (x / 2) (2 ^ b)
half-bit_or-suc x b = ground (arith, pow-suc 2 b, bit_or_double x (2 ^ b))

-- `x | 1 << b` sets digit `b` and no other.
pub test_bit-bit_or :
    (b k x : ℕ) → test_bit (bit_or x (2 ^ b)) k ≡ (if k == b then true else test_bit x k)
unfolding test_bit
test_bit-bit_or zero zero x = ground (arith, bit_or_halves x 1)
test_bit-bit_or zero (suc k) x = ap (λ y. test_bit y k) (half-bit_or_one x) ∙ ground arith
test_bit-bit_or (suc b) zero x = ground (arith, pow-suc 2 b, bit_or_halves x (2 ^ b * 2))
test_bit-bit_or (suc b) (suc k) x =
    ap (λ y. test_bit y k) (half-bit_or-suc x b) ∙ test_bit-bit_or b k (x / 2) ∙ ground arith

-- A word stays a word.
pub bit_or-lt-pow : (k x b : ℕ) → x < 2 ^ k → b < k → bit_or x (2 ^ b) < 2 ^ k
bit_or-lt-pow zero x b h g = absurd (omega arith)
bit_or-lt-pow (suc k) x zero h g =
    omega (arith, pow-suc 2 k, bit_or_halves x 1, bit_or-zero (x / 2))
bit_or-lt-pow (suc k) x (suc b) h g = omega (
  arith,
  pow-suc 2 k,
  half-bit_or-suc x b,
  bit_or-lt-pow k (x / 2) b (omega (arith, pow-suc 2 k)) (omega arith),
)
