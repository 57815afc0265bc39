-- ===== src/Bitmask/Union.antt =====
-- bitMapSet_addAll and bitMapSet_addAllWithExclusion, seen at each number.
use jleaker.Common.{
  ℕ, ◌+◌, ◌-◌, ◌/◌, ◌%◌, ◌^◌, ◌<◌, ◌≤◌, bit_and, bit_or, ◌≡◌, refl, ap, leb, ltb, not, ◌&&◌, ◌||◌,
  true, false, get_or, get_or-beyond, arith,
}
use jleaker.Bits.{test_bit, test_bit-bit_or, test_bit-bit_and, test_bit-complement, test_bit-zero}
use jleaker.Bitmask.Defs.{
  BitmaskSet, lesser, size_in_bytes, contains, raw_bit, add_all, add_all_with_exclusion,
}
use jleaker.Bitmask.Bounds.{IsValid, get_or-or_bytes, get_or-or_bytes_excluding, exclusion_rounds}
use jleaker.Bitmask.Members.{IsClean, contains_lem}

-- Numbers whose byte is not in the buffer have no bit.
pub raw_bit-beyond : (s : BitmaskSet) (m : ℕ) → IsValid s → s.size / 8 < m / 8 → raw_bit s m ≡ false
unfolding raw_bit size_in_bytes
raw_bit-beyond s m v h =
    let no_byte = get_or-beyond s.bytes (m / 8) 0 (omega (arith, v.allocated)) in
    rw no_byte (test_bit-zero (m % 8))

pub raw_lem : (s : BitmaskSet) (m : ℕ) → raw_bit s m ≡ test_bit (get_or s.bytes (m / 8) 0) (m % 8)
unfolding raw_bit
raw_lem s m = refl

-- The loop stops with the byte that holds the smaller size.
pub raw_bit-add_all :
    (s o : BitmaskSet) (m : ℕ)
    → IsValid s
    → IsValid o
    → raw_bit (add_all s o) m
      ≡ (raw_bit s m || (leb (m / 8) (lesser s.size o.size / 8) && raw_bit o m))
unfolding raw_bit add_all size_in_bytes
raw_bit-add_all s o m v w = ground (
  arith,
  get_or-or_bytes (lesser s.size o.size / 2 ^ 3 + 1) s.bytes o.bytes (m / 8),
  test_bit-bit_or (get_or s.bytes (m / 8) 0) (get_or o.bytes (m / 8) 0) (m % 8),
  v.allocated,
  w.allocated,
)

module _ (s o e : BitmaskSet) (m : ℕ) (v : IsValid s) (w : IsValid o) (x : IsValid e) where
  -- One bit of the byte that the first loop writes.
  excluded_bit :
      test_bit
        (bit_or
          (get_or s.bytes (m / 8) 0)
          (bit_and (get_or o.bytes (m / 8) 0) (255 - get_or e.bytes (m / 8) 0)))
        (m % 8)
      ≡ (raw_bit s m || (raw_bit o m && not (raw_bit e m)))
  unfolding raw_bit
  excluded_bit = ground (
    arith,
    test_bit-bit_or (get_or s.bytes (m / 8) 0)
        (bit_and (get_or o.bytes (m / 8) 0) (255 - get_or e.bytes (m / 8) 0)) (m % 8),
    test_bit-bit_and (get_or o.bytes (m / 8) 0) (255 - get_or e.bytes (m / 8) 0) (m % 8),
    test_bit-complement 8 (get_or e.bytes (m / 8) 0) (m % 8) (x.is_bytes (m / 8)) (omega arith),
  )

  or_bit :
      test_bit (bit_or (get_or s.bytes (m / 8) 0) (get_or o.bytes (m / 8) 0)) (m % 8)
      ≡ (raw_bit s m || raw_bit o m)
  unfolding raw_bit
  or_bit = test_bit-bit_or (get_or s.bytes (m / 8) 0) (get_or o.bytes (m / 8) 0) (m % 8)

  -- Past the bytes of the first loop the excluded set has no bits left.
  pub raw_bit-add_all_with_exclusion : raw_bit (add_all_with_exclusion s o e) m ≡ (
      raw_bit s m || (leb (m / 8) (lesser s.size o.size / 8) && (raw_bit o m && not (raw_bit e m))))
  unfolding add_all_with_exclusion size_in_bytes
  raw_bit-add_all_with_exclusion =
      let excl = size_in_bytes (lesser (lesser s.size o.size) e.size) in
      let total = size_in_bytes (lesser s.size o.size) in
      let (sum, in_s, in_o, in_e) = exclusion_rounds s o e v w x in
      ground (
        arith,
        ap (λ b. test_bit b (m % 8))
            (get_or-or_bytes_excluding excl (total - excl) s.bytes o.bytes e.bytes (m / 8) in_s in_o
              in_e),
        sum,
        excluded_bit,
        or_bit,
        raw_bit-beyond e m x,
        raw_lem (add_all_with_exclusion s o e) m,
        raw_lem s m,
      )

pub size-add_all : (s o : BitmaskSet) → (add_all s o).size ≡ s.size
unfolding add_all
size-add_all s o = refl

pub size-add_all_with_exclusion :
    (s o e : BitmaskSet) → (add_all_with_exclusion s o e).size ≡ s.size
unfolding add_all_with_exclusion
size-add_all_with_exclusion s o e = refl

-- After `add_all s o` the set contains what it contained, and each bit of `o` below its own size.
pub contains-add_all_raw :
    (s o : BitmaskSet) (m : ℕ)
    → IsValid s
    → IsValid o
    → contains (add_all s o) m ≡ (contains s m || (ltb m s.size && raw_bit o m))
contains-add_all_raw s o m v w = ground (
  arith,
  contains_lem (add_all s o) m,
  contains_lem s m,
  raw_bit-add_all s o m v w,
  raw_bit-beyond o m w,
  size-add_all s o,
)

-- The union of bitMapSet_addAll keeps what the set that is written contains, and adds exactly the
-- numbers of the other set that lie below its size; numbers at or above it are lost. Both sets
-- are well formed, and the other has no bit beyond its size.
pub contains-add_all :
    (s o : BitmaskSet) (m : ℕ)
    → IsValid s
    → IsValid o
    → IsClean o
    → contains (add_all s o) m ≡ (contains s m || (ltb m s.size && contains o m))
contains-add_all s o m v w c = ground (arith, contains-add_all_raw s o m v w, contains_lem o m, c m)

-- bitMapSet_addAllWithExclusion keeps what the first set contains and adds exactly the numbers of
-- the second that lie below the first set's size and are not in the third. The sets are well
-- formed, and the second and third have no bit beyond their size.
pub contains-add_all_with_exclusion :
    (s o e : BitmaskSet) (m : ℕ)
    → IsValid s
    → IsValid o
    → IsValid e
    → IsClean o
    → IsClean e
    → contains (add_all_with_exclusion s o e) m
      ≡ (contains s m || (ltb m s.size && (contains o m && not (contains e m))))
contains-add_all_with_exclusion s o e m v w x co ce = ground (
  arith,
  contains_lem (add_all_with_exclusion s o e) m,
  contains_lem s m,
  contains_lem o m,
  contains_lem e m,
  raw_bit-add_all_with_exclusion s o e m v w x,
  raw_bit-beyond o m w,
  size-add_all_with_exclusion s o e,
  co m,
  ce m,
)

-- The union leaves the spare bits clear when the other set is not larger.
pub IsClean-add_all :
    (s o : BitmaskSet)
    → IsValid s
    → IsValid o
    → IsClean s
    → IsClean o
    → o.size ≤ s.size
    → IsClean (add_all s o)
IsClean-add_all s o v w c d le m h =
    ground (arith, raw_bit-add_all s o m v w, c m, d m, size-add_all s o)

pub IsClean-add_all_with_exclusion :
    (s o e : BitmaskSet)
    → IsValid s
    → IsValid o
    → IsValid e
    → IsClean s
    → IsClean o
    → o.size ≤ s.size
    → IsClean (add_all_with_exclusion s o e)
IsClean-add_all_with_exclusion s o e v w x c d le m h = ground (
  arith,
  raw_bit-add_all_with_exclusion s o e m v w x,
  c m,
  d m,
  size-add_all_with_exclusion s o e,
)

-- A number at or above the size of the written set, but in its last byte, that the other set
-- contains leaves a bit set in the written set's buffer, though that set does not contain the
-- number; both sets are well formed.
pub add_all-spare_bit :
    (s o : BitmaskSet) (m : ℕ)
    → IsValid s
    → IsValid o
    → s.size ≤ m
    → m / 8 ≡ s.size / 8
    → contains o m ≡ true
    → (raw_bit (add_all s o) m ≡ true) × (contains (add_all s o) m ≡ false)
add_all-spare_bit s o m v w le same h = ground (
  arith,
  raw_bit-add_all s o m v w,
  contains_lem o m,
  contains_lem (add_all s o) m,
  size-add_all s o,
)
