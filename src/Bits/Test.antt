-- ===== src/Bits/Test.antt =====
-- Bit `i` of a number, and what `|` and `&` do to it.
use jleaker.Common.{ℕ, zero, suc, ◌/◌, ◌%◌, bit_and, bit_or, ◌≡◌, Bool, ◌&&◌, ◌||◌, ◌==◌, arith}
use jleaker.Bits.Digits.{bit_or_half, bit_or_low, bit_and_half, bit_and_low}

-- Bit `i` of `a`, counted from the low end.
unfoldable pub test_bit : ℕ → ℕ → Bool
test_bit a zero = a % 2 == 1
test_bit a (suc i) = test_bit (a / 2) i

pub test_bit-bit_or : (a b i : ℕ) → test_bit (bit_or a b) i ≡ (test_bit a i || test_bit b i)
unfolding test_bit
test_bit-bit_or a b zero = ground (arith, bit_or_low a b)
test_bit-bit_or a b (suc i) = rw (bit_or_half a b) (test_bit-bit_or (a / 2) (b / 2) i)

pub test_bit-bit_and : (a b i : ℕ) → test_bit (bit_and a b) i ≡ (test_bit a i && test_bit b i)
unfolding test_bit
test_bit-bit_and a b zero = ground (arith, bit_and_low a b)
test_bit-bit_and a b (suc i) = rw (bit_and_half a b) (test_bit-bit_and (a / 2) (b / 2) i)
