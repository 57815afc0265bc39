-- ===== src/Bits/Byte.antt =====
-- Single bits and whole bytes: the mask `1 << k`, the complement of a byte, and equality bit by bit.
use native.Mathlib.Nat.{pow-suc, one-le-pow}
use jleaker.Common.{
  ℕ, zero, suc, ◌-◌, ◌*◌, ◌/◌, ◌%◌, ◌^◌, ◌<◌, ◌≤◌, bit_and, bit_or, ◌≡◌, refl, ◌∙◌, false, not,
  ◌==◌, arith, ap,
}
use jleaker.Bits.Digits.{bit_or_half, bit_and_half, bit_and_low, zero-bit_and}
use jleaker.Bits.Test.{test_bit}

pub test_bit-zero : (i : ℕ) → test_bit 0 i ≡ false
unfolding test_bit
test_bit-zero zero = refl
test_bit-zero (suc i) = test_bit-zero i

pub two_pow_suc : (k : ℕ) → 2 ^ suc k ≡ 2 * 2 ^ k
two_pow_suc k = omega (arith, pow-suc 2 k)

pub two_pow-lt : (k w : ℕ) → k < w → 2 ^ k < 2 ^ w
two_pow-lt k zero h = absurd (omega arith)
two_pow-lt zero (suc w) h = omega (arith, two_pow_suc w, one-le-pow w 2)
two_pow-lt (suc k) (suc w) h =
    omega (arith, two_pow_suc w, two_pow_suc k, two_pow-lt k w (omega arith))

-- `1 << k` has bit `k` and no other.
pub test_bit-two_pow : (k i : ℕ) → test_bit (2 ^ k) i ≡ (k == i)
unfolding test_bit
test_bit-two_pow zero zero = refl
test_bit-two_pow zero (suc i) = test_bit-zero i ∙ ground arith
test_bit-two_pow (suc k) zero = ground (arith, two_pow_suc k)
test_bit-two_pow (suc k) (suc i) =
    let half : 2 ^ suc k / 2 ≡ 2 ^ k = omega (arith, two_pow_suc k) in
    rw half (test_bit-two_pow k i ∙ ground arith)

-- Nothing is shared with 0.
bit_and-zero : (a : ℕ) → bit_and a 0 ≡ 0
bit_and-zero a = eq_zero a a (omega arith)
  where
    eq_zero : (fuel a : ℕ) → a ≤ fuel → bit_and a 0 ≡ 0
    eq_zero zero a h = let a_zero : a ≡ 0 = omega arith in rw a_zero
    eq_zero (suc fuel) zero h = refl
    eq_zero (suc fuel) (suc a) h = omega (
      arith,
      bit_and_half (suc a) 0,
      bit_and_low (suc a) 0,
      eq_zero fuel (suc a / 2) (omega arith),
    )

-- Bits beyond the width are clear.
pub test_bit-beyond : (w a i : ℕ) → a < 2 ^ w → w ≤ i → test_bit a i ≡ false
unfolding test_bit
test_bit-beyond zero a i h le = let none_set : a ≡ 0 = omega arith in rw none_set (test_bit-zero i)
test_bit-beyond (suc w) a zero h le = absurd (omega arith)
test_bit-beyond (suc w) a (suc i) h le =
    test_bit-beyond w (a / 2) i (omega (arith, two_pow_suc w)) (omega arith)

-- Two numbers of `w` bits with the same bits are equal.
pub eq_of_test_bit :
    (w a b : ℕ) → a < 2 ^ w → b < 2 ^ w → ((i : ℕ) → i < w → test_bit a i ≡ test_bit b i) → a ≡ b
unfolding test_bit
eq_of_test_bit zero a b ha hb same = omega arith
eq_of_test_bit (suc w) a b ha hb same =
    let halves =
      eq_of_test_bit w (a / 2) (b / 2) (omega (arith, two_pow_suc w)) (omega (arith, two_pow_suc w))
        (λ i h. same (suc i) (omega arith)) in
    ground (arith, same zero)

pub bit_or-lt : (w a b : ℕ) → a < 2 ^ w → b < 2 ^ w → bit_or a b < 2 ^ w
bit_or-lt zero a b ha hb =
    let a_zero : a ≡ 0 = omega arith in
    let b_zero : b ≡ 0 = omega arith in rw (a_zero, b_zero) (omega arith)
bit_or-lt (suc w) a b ha hb = omega (
  arith,
  two_pow_suc w,
  bit_or_half a b,
  bit_or-lt w (a / 2) (b / 2) (omega (arith, two_pow_suc w)) (omega (arith, two_pow_suc w)),
)

pub bit_and-le : (w a b : ℕ) → a < 2 ^ w → bit_and a b ≤ a
bit_and-le zero a b ha =
    let a_zero : a ≡ 0 = omega arith in rw a_zero (omega (arith, zero-bit_and b))
bit_and-le (suc w) a b ha = omega (
  arith,
  two_pow_suc w,
  bit_and_half a b,
  bit_and_low a b,
  bit_and-le w (a / 2) (b / 2) (omega (arith, two_pow_suc w)),
)

-- `n & 7` is the remainder by 8.
pub bit_and-seven : (n : ℕ) → bit_and n 7 ≡ n % 8
bit_and-seven n = omega (
  arith,
  bit_and_half n 7,
  bit_and_low n 7,
  bit_and_half (n / 2) 3,
  bit_and_low (n / 2) 3,
  bit_and_half (n / 2 / 2) 1,
  bit_and_low (n / 2 / 2) 1,
  bit_and-zero (n / 2 / 2 / 2),
)

-- `x & (1 << k)` is nonzero exactly when bit `k` of `x` is set.
pub bit_and-two_pow : (a k : ℕ) → (bit_and a (2 ^ k) == 0) ≡ not (test_bit a k)
unfolding test_bit
bit_and-two_pow a zero = ground (arith, bit_and_half a 1, bit_and_low a 1, bit_and-zero (a / 2))
bit_and-two_pow a (suc k) =
    let half : 2 ^ suc k / 2 ≡ 2 ^ k = omega (arith, two_pow_suc k) in
    let low : 2 ^ suc k % 2 ≡ 0 = omega (arith, two_pow_suc k) in
    ground (
      arith,
      bit_and_half a (2 ^ suc k),
      bit_and_low a (2 ^ suc k),
      bit_and-two_pow (a / 2) k,
      ap (bit_and (a / 2)) half,
    )

-- `~x` of a byte, cut back to a byte, inverts each of its bits.
pub test_bit-complement :
    (w x i : ℕ) → x < 2 ^ w → i < w → test_bit (2 ^ w - 1 - x) i ≡ not (test_bit x i)
unfolding test_bit
test_bit-complement zero x i hx hi = absurd (omega arith)
test_bit-complement (suc w) x zero hx hi = ground (arith, two_pow_suc w)
test_bit-complement (suc w) x (suc i) hx hi =
    let half : (2 ^ suc w - 1 - x) / 2 ≡ 2 ^ w - 1 - x / 2 = omega (arith, two_pow_suc w) in
    rw half (test_bit-complement w (x / 2) i (omega (arith, two_pow_suc w)) (omega arith))
