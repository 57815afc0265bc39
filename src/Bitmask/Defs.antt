-- ===== src/Bitmask/Defs.antt =====
-- The operations of src/cpp/bitmask_set.c.
use jleaker.Common.{
  ℕ, zero, suc, ◌+◌, ◌-◌, ◌/◌, ◌%◌, ◌^◌, bit_and, bit_or, Bool, true, false, ◌==◌, leb, ltb,
  if◌then◌else◌, List, [], ◌∷◌, get_or, set, replicate,
}
use jleaker.Bits.{test_bit}

pub record BitmaskSet : Type 0 where
  pub bytes : List ℕ
  pub size : ℕ

-- `(a < b) ? a : b`
abbrev pub lesser : ℕ → ℕ → ℕ
lesser a b = if ltb a b then a else b

-- The macro SIZE_IN_BYTES.
unfoldable pub size_in_bytes : ℕ → ℕ
size_in_bytes sz = 1 + sz / 2 ^ 3

-- `1 << (n & 7)`
unfoldable pub mask : ℕ → ℕ
mask n = 2 ^ bit_and n 7

-- bitMaskSet_new, with the buffer cleared.
unfoldable pub new : ℕ → BitmaskSet
unfolding size_in_bytes
new size = record { bytes = replicate (size_in_bytes size) 0; size = size }

-- bitMapSet_add
unfoldable pub add : BitmaskSet → ℕ → BitmaskSet
unfolding mask
add s n = if leb s.size n then s else record s {
  bytes = set s.bytes (n / 2 ^ 3) (bit_or (get_or s.bytes (n / 2 ^ 3) 0) (mask n));
}

-- bitMapSet_remove; `(unsigned char)~x` of a byte is 255 - x.
unfoldable pub remove : BitmaskSet → ℕ → BitmaskSet
unfolding mask
remove s n = if leb s.size n then s else record s {
  bytes = set s.bytes (n / 2 ^ 3) (bit_and (get_or s.bytes (n / 2 ^ 3) 0) (255 - mask n));
}

-- bitMapSet_contains
unfoldable pub contains : BitmaskSet → ℕ → Bool
unfolding mask
contains s n =
    if leb s.size n
    then false
    else (if bit_and (get_or s.bytes (n / 2 ^ 3) 0) (mask n) == 0 then false else true)

-- The loop `*p1 |= *p2`, with the rounds left.
unfoldable pub or_bytes : ℕ → List ℕ → List ℕ → List ℕ
or_bytes zero p1 p2 = p1
or_bytes (suc k) (x ∷ p1) (y ∷ p2) = bit_or x y ∷ or_bytes k p1 p2
or_bytes (suc k) (x ∷ p1) [] = x ∷ p1
or_bytes (suc k) [] p2 = []

-- bitMapSet_addAll
unfoldable pub add_all : BitmaskSet → BitmaskSet → BitmaskSet
unfolding or_bytes
add_all s o =
    let min_size : ℕ = lesser s.size o.size in
    record s { bytes = or_bytes (min_size / 2 ^ 3 + 1) s.bytes o.bytes }

-- The two loops of bitMapSet_addAllWithExclusion: `k` rounds of `*p1 |= (*p2 & ~*p3)`, and then
-- `rest` rounds of `*p1 |= *p2` from where the first loop stopped.
unfoldable pub or_bytes_excluding : ℕ → ℕ → List ℕ → List ℕ → List ℕ → List ℕ
unfolding or_bytes
or_bytes_excluding zero rest p1 p2 p3 = or_bytes rest p1 p2
or_bytes_excluding (suc k) rest (x ∷ p1) (y ∷ p2) (z ∷ p3) =
    bit_or x (bit_and y (255 - z)) ∷ or_bytes_excluding k rest p1 p2 p3
or_bytes_excluding (suc k) rest (x ∷ p1) (y ∷ p2) [] = x ∷ p1
or_bytes_excluding (suc k) rest (x ∷ p1) [] p3 = x ∷ p1
or_bytes_excluding (suc k) rest [] p2 p3 = []

-- bitMapSet_addAllWithExclusion
unfoldable pub add_all_with_exclusion : BitmaskSet → BitmaskSet → BitmaskSet → BitmaskSet
unfolding or_bytes_excluding size_in_bytes
add_all_with_exclusion s o e =
    let min_size : ℕ = lesser s.size o.size in
    let excl_size : ℕ = lesser min_size e.size in
    let min_bytes = size_in_bytes min_size in
    let excl_bytes = size_in_bytes excl_size in
    record s {
      bytes = or_bytes_excluding excl_bytes (min_bytes - excl_bytes) s.bytes o.bytes e.bytes;
    }

-- The loop of bitMapSet_containsAll.
unfoldable pub includes_bytes : ℕ → List ℕ → List ℕ → Bool
includes_bytes zero p1 p2 = true
includes_bytes (suc k) (x ∷ p1) (y ∷ p2) =
    if bit_and x y == y then includes_bytes k p1 p2 else false
includes_bytes (suc k) (x ∷ p1) [] = true
includes_bytes (suc k) [] p2 = true

-- bitMapSet_containsAll
unfoldable pub contains_all : BitmaskSet → BitmaskSet → Bool
unfolding includes_bytes size_in_bytes
contains_all s o = includes_bytes (size_in_bytes (lesser s.size o.size)) s.bytes o.bytes

-- The loop of bitMapSet_isEmpty.
unfoldable pub zero_bytes : ℕ → List ℕ → Bool
zero_bytes zero p1 = true
zero_bytes (suc k) (x ∷ p1) = if x == 0 then zero_bytes k p1 else false
zero_bytes (suc k) [] = true

-- bitMapSet_isEmpty
unfoldable pub is_empty : BitmaskSet → Bool
unfolding zero_bytes size_in_bytes
is_empty s = zero_bytes (size_in_bytes s.size) s.bytes

-- Bit `n` of the buffer, whether or not `n` is below the size.
unfoldable pub raw_bit : BitmaskSet → ℕ → Bool
raw_bit s n = test_bit (get_or s.bytes (n / 8) 0) (n % 8)
