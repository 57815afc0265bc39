-- ===== src/Bitmask/Members.antt =====
-- Membership: bitMapSet_contains against bitMaskSet_new, bitMapSet_add and bitMapSet_remove.
use jleaker.Common.{
  ℕ, ◌-◌, ◌/◌, ◌%◌, ◌^◌, ◌<◌, ◌≤◌, bit_and, bit_or, ◌≡◌, ap, ltb, if◌then◌else◌, not, ◌&&◌, ◌||◌,
  false, length, get_or, set, List, get_or-set, get_or-replicate, arith, ◌==◌,
}
use jleaker.Bits.{
  test_bit, test_bit-bit_or, test_bit-bit_and, test_bit-two_pow, test_bit-complement, test_bit-zero,
  bit_and-seven, bit_and-two_pow, two_pow-lt,
}
use jleaker.Bitmask.Defs.{BitmaskSet, size_in_bytes, mask, new, add, remove, contains, raw_bit}
use jleaker.Bitmask.Bounds.{IsValid, byte_in_range}

pub mask_lem : (n : ℕ) → mask n ≡ 2 ^ (n % 8)
unfolding mask
mask_lem n = ap (λ k. 2 ^ k) (bit_and-seven n)

-- `contains` reads the bit of a number below the size.
pub contains_lem : (s : BitmaskSet) (n : ℕ) → contains s n ≡ (ltb n s.size && raw_bit s n)
unfolding contains raw_bit
contains_lem s n =
    rw (bit_and-seven n) (ground (arith, bit_and-two_pow (get_or s.bytes (n / 2 ^ 3) 0) (n % 8)))

pub raw_bit-new : (size n : ℕ) → raw_bit (new size) n ≡ false
unfolding raw_bit new
raw_bit-new size n =
    rw (get_or-replicate {A = ℕ} (size_in_bytes size) (n / 8) 0) (test_bit-zero (n % 8))

-- A write of one byte, seen at each bit.
test_bit-set :
    (bytes : List ℕ) (n m b : ℕ)
    → n / 8 < length bytes
    → test_bit (get_or (set bytes (n / 8) b) (m / 8) 0) (m % 8)
      ≡ (if n / 8 == m / 8 then test_bit b (m % 8) else test_bit (get_or bytes (m / 8) 0) (m % 8))
test_bit-set bytes n m b h = ground (arith, get_or-set bytes (n / 8) (m / 8) b 0)

module _ (s : BitmaskSet) (v : IsValid s) where
  pub raw_bit-add : (n m : ℕ) → raw_bit (add s n) m ≡ (raw_bit s m || (ltb n s.size && (n == m)))
  unfolding raw_bit add
  raw_bit-add n m = rw (mask_lem n) (
      ground (
        arith,
        test_bit-set s.bytes n m (bit_or (get_or s.bytes (n / 8) 0) (2 ^ (n % 8))),
        byte_in_range s n v,
        test_bit-bit_or (get_or s.bytes (n / 8) 0) (2 ^ (n % 8)) (m % 8),
        test_bit-two_pow (n % 8) (m % 8),
      ))

  pub raw_bit-remove :
      (n m : ℕ) → raw_bit (remove s n) m ≡ (raw_bit s m && not (ltb n s.size && (n == m)))
  unfolding raw_bit remove
  raw_bit-remove n m = rw (mask_lem n) (
      ground (
        arith,
        test_bit-set s.bytes n m (bit_and (get_or s.bytes (n / 8) 0) (255 - 2 ^ (n % 8))),
        byte_in_range s n v,
        test_bit-bit_and (get_or s.bytes (n / 8) 0) (255 - 2 ^ (n % 8)) (m % 8),
        test_bit-complement 8 (2 ^ (n % 8)) (m % 8) (two_pow-lt (n % 8) 8 (omega arith))
            (omega arith),
        test_bit-two_pow (n % 8) (m % 8),
      ))

-- A set holds nothing beyond its size, not even in the spare bits of its last byte.
abbrev pub IsClean : BitmaskSet → Type 0
IsClean s = (m : ℕ) → s.size ≤ m → raw_bit s m ≡ false

pub IsClean-new : (size : ℕ) → IsClean (new size)
IsClean-new size m h = raw_bit-new size m

pub size-add : (s : BitmaskSet) (n : ℕ) → (add s n).size ≡ s.size
unfolding add
size-add s n = ground arith

pub size-remove : (s : BitmaskSet) (n : ℕ) → (remove s n).size ≡ s.size
unfolding remove
size-remove s n = ground arith

pub IsClean-add : (s : BitmaskSet) (n : ℕ) → IsValid s → IsClean s → IsClean (add s n)
IsClean-add s n v c m h = ground (arith, raw_bit-add s v n m, c m, size-add s n)

pub IsClean-remove : (s : BitmaskSet) (n : ℕ) → IsValid s → IsClean s → IsClean (remove s n)
IsClean-remove s n v c m h = ground (arith, raw_bit-remove s v n m, c m, size-remove s n)

-- A fresh set contains nothing. After bitMapSet_add of a number a well-formed set contains what
-- it did, and the number if that is below the size; after bitMapSet_remove it contains what it
-- did, except the number.
pub contains-update :
    (s : BitmaskSet) (n m : ℕ)
    → IsValid s
    → (contains (new s.size) m ≡ false)
      × (contains (add s n) m ≡ (contains s m || (ltb n s.size && (n == m))))
      × (contains (remove s n) m ≡ (contains s m && not (n == m)))
contains-update s n m v = (
  ground (arith, contains_lem (new s.size) m, raw_bit-new s.size m),
  ground (arith, contains_lem (add s n) m, contains_lem s m, raw_bit-add s v n m, size-add s n),
  ground (
    arith,
    contains_lem (remove s n) m,
    contains_lem s m,
    raw_bit-remove s v n m,
    size-remove s n,
  ),
)
