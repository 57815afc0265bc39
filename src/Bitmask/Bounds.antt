-- ===== src/Bitmask/Bounds.antt =====
-- The buffer keeps its length and its cells stay bytes.
use jleaker.Common.{
  ℕ, zero, suc, ◌+◌, ◌-◌, ◌/◌, ◌^◌, ◌<◌, ◌≤◌, bit_and, bit_or, ◌≡◌, refl, ap, ◌∙◌, leb, ltb,
  if◌then◌else◌, List, [], ◌∷◌, length, get_or, set, length-set, length-replicate, get_or-set,
  get_or-replicate, Bool-cases, inl, inr, arith,
}
use jleaker.Bits.{bit_or-lt, bit_and-le, bit_and-seven, two_pow-lt}
use jleaker.Bitmask.Defs.{
  BitmaskSet, lesser, size_in_bytes, mask, new, add, remove, or_bytes, add_all, or_bytes_excluding,
  add_all_with_exclusion,
}

-- What bitMaskSet_new establishes and every operation keeps.
pub record IsValid (s : BitmaskSet) : Type 0 where
  pub allocated : length s.bytes ≡ size_in_bytes s.size
  pub is_bytes : (i : ℕ) → get_or s.bytes i 0 < 2 ^ 8

mask-lt : (n : ℕ) → mask n < 2 ^ 8
unfolding mask
mask-lt n = two_pow-lt (bit_and n 7) 8 (omega (arith, bit_and-seven n))

pub new-IsValid : (size : ℕ) → IsValid (new size)
unfolding new
new-IsValid size = record {
  allocated = length-replicate (size_in_bytes size) 0;
  is_bytes = λ i. omega (arith, get_or-replicate {A = ℕ} (size_in_bytes size) i 0);
}

-- Below the size, a number's byte lies in the buffer.
pub byte_in_range : (s : BitmaskSet) (n : ℕ) → IsValid s → n < s.size → n / 2 ^ 3 < length s.bytes
unfolding size_in_bytes
byte_in_range s n v h = omega (arith, v.allocated)

pub length-or_bytes : (k : ℕ) (p1 p2 : List ℕ) → length (or_bytes k p1 p2) ≡ length p1
unfolding or_bytes
length-or_bytes zero p1 p2 = refl
length-or_bytes (suc k) [] p2 = refl
length-or_bytes (suc k) (x ∷ p1) [] = refl
length-or_bytes (suc k) (x ∷ p1) (y ∷ p2) = ap suc (length-or_bytes k p1 p2)

pub length-or_bytes_excluding :
    (k rest : ℕ) (p1 p2 p3 : List ℕ) → length (or_bytes_excluding k rest p1 p2 p3) ≡ length p1
unfolding or_bytes_excluding
length-or_bytes_excluding zero rest p1 p2 p3 = length-or_bytes rest p1 p2
length-or_bytes_excluding (suc k) rest [] p2 p3 = refl
length-or_bytes_excluding (suc k) rest (x ∷ p1) [] p3 = refl
length-or_bytes_excluding (suc k) rest (x ∷ p1) (y ∷ p2) [] = refl
length-or_bytes_excluding (suc k) rest (x ∷ p1) (y ∷ p2) (z ∷ p3) =
    ap suc (length-or_bytes_excluding k rest p1 p2 p3)

-- The byte at each index after the union loop.
pub get_or-or_bytes :
    (k : ℕ) (p1 p2 : List ℕ) (i : ℕ)
    → k ≤ length p1
    → k ≤ length p2
    → get_or (or_bytes k p1 p2) i 0
      ≡ (if ltb i k then bit_or (get_or p1 i 0) (get_or p2 i 0) else get_or p1 i 0)
unfolding or_bytes
get_or-or_bytes zero p1 p2 i h1 h2 = ground arith
get_or-or_bytes (suc k) [] p2 i h1 h2 = absurd (omega arith)
get_or-or_bytes (suc k) (x ∷ p1) [] i h1 h2 = absurd (omega arith)
get_or-or_bytes (suc k) (x ∷ p1) (y ∷ p2) zero h1 h2 = ground arith
get_or-or_bytes (suc k) (x ∷ p1) (y ∷ p2) (suc i) h1 h2 = ground (arith, get_or-or_bytes k p1 p2 i)

-- The byte at each index after the union loop with exclusion.
pub get_or-or_bytes_excluding :
    (k rest : ℕ) (p1 p2 p3 : List ℕ) (i : ℕ)
    → k + rest ≤ length p1
    → k + rest ≤ length p2
    → k ≤ length p3
    → get_or (or_bytes_excluding k rest p1 p2 p3) i 0 ≡ (
        if ltb i k
        then bit_or (get_or p1 i 0) (bit_and (get_or p2 i 0) (255 - get_or p3 i 0))
        else (if ltb i (k + rest) then bit_or (get_or p1 i 0) (get_or p2 i 0) else get_or p1 i 0))
unfolding or_bytes_excluding
get_or-or_bytes_excluding zero rest p1 p2 p3 i h1 h2 h3 =
    ground (arith, get_or-or_bytes rest p1 p2 i)
get_or-or_bytes_excluding (suc k) rest [] p2 p3 i h1 h2 h3 = absurd (omega arith)
get_or-or_bytes_excluding (suc k) rest (x ∷ p1) [] p3 i h1 h2 h3 = absurd (omega arith)
get_or-or_bytes_excluding (suc k) rest (x ∷ p1) (y ∷ p2) [] i h1 h2 h3 = absurd (omega arith)
get_or-or_bytes_excluding (suc k) rest (x ∷ p1) (y ∷ p2) (z ∷ p3) zero h1 h2 h3 = ground arith
get_or-or_bytes_excluding (suc k) rest (x ∷ p1) (y ∷ p2) (z ∷ p3) (suc i) h1 h2 h3 =
    ground (arith, get_or-or_bytes_excluding k rest p1 p2 p3 i)

-- Any byte put into a cell keeps the buffer well formed.
module _ (s : BitmaskSet) (v : IsValid s) where
  set-IsValid : (j b : ℕ) → b < 2 ^ 8 → IsValid (record s { bytes = set s.bytes j b })
  set-IsValid j b small = record {
    allocated = length-set s.bytes j b ∙ v.allocated;
    is_bytes = λ i. ground (arith, get_or-set s.bytes j i b 0, v.is_bytes i);
  }

  pub add-IsValid : (n : ℕ) → IsValid (add s n)
  unfolding add
  add-IsValid n = elim (Bool-cases (leb s.size n)) [
    | inl full ↦ rw full v
    | inr room ↦ rw room (
        set-IsValid (n / 2 ^ 3) (bit_or (get_or s.bytes (n / 2 ^ 3) 0) (mask n))
          (bit_or-lt 8 (get_or s.bytes (n / 2 ^ 3) 0) (mask n) (v.is_bytes _) (mask-lt n)))
  ]

  pub remove-IsValid : (n : ℕ) → IsValid (remove s n)
  unfolding remove
  remove-IsValid n = elim (Bool-cases (leb s.size n)) [
    | inl full ↦ rw full v
    | inr room ↦ rw room (
        set-IsValid (n / 2 ^ 3) (bit_and (get_or s.bytes (n / 2 ^ 3) 0) (255 - mask n)) (
          omega (
            arith,
            v.is_bytes (n / 2 ^ 3),
            bit_and-le 8 (get_or s.bytes (n / 2 ^ 3) 0) (255 - mask n) (v.is_bytes _),
          )))
  ]

-- The rounds of a union loop stay within both buffers.
pub union_rounds :
    (s o : BitmaskSet)
    → IsValid s
    → IsValid o
    → (smaller : ℕ) → smaller ≤ s.size
    → smaller ≤ o.size
    → (size_in_bytes smaller ≤ length s.bytes) × (size_in_bytes smaller ≤ length o.bytes)
unfolding size_in_bytes
union_rounds s o v w smaller p q = omega (arith, v.allocated, w.allocated)

pub or_byte-lt :
    (s o : BitmaskSet)
    → IsValid s
    → IsValid o
    → (i : ℕ) → bit_or (get_or s.bytes i 0) (get_or o.bytes i 0) < 2 ^ 8
or_byte-lt s o v w i =
    bit_or-lt 8 (get_or s.bytes i 0) (get_or o.bytes i 0) (v.is_bytes i) (w.is_bytes i)

pub or_byte_excluding-lt :
    (s o : BitmaskSet)
    → IsValid s
    → IsValid o
    → (i z : ℕ) → bit_or (get_or s.bytes i 0) (bit_and (get_or o.bytes i 0) (255 - z)) < 2 ^ 8
or_byte_excluding-lt s o v w i z =
    let left : bit_and (get_or o.bytes i 0) (255 - z) < 2 ^ 8 =
      omega (arith, w.is_bytes i, bit_and-le 8 (get_or o.bytes i 0) (255 - z) (w.is_bytes i)) in
    bit_or-lt 8 (get_or s.bytes i 0) (bit_and (get_or o.bytes i 0) (255 - z)) (v.is_bytes i) left

pub add_all-IsValid : (s o : BitmaskSet) → IsValid s → IsValid o → IsValid (add_all s o)
unfolding add_all size_in_bytes
add_all-IsValid s o v w = record {
  allocated = length-or_bytes _ s.bytes o.bytes ∙ v.allocated;
  is_bytes = λ i. ground (
    arith,
    get_or-or_bytes (lesser s.size o.size / 2 ^ 3 + 1) s.bytes o.bytes i,
    or_byte-lt s o v w i,
    v.is_bytes i,
    v.allocated,
    w.allocated,
  );
}

module _ (s o e : BitmaskSet) (v : IsValid s) (w : IsValid o) (x : IsValid e) where
  -- The rounds of the two loops of bitMapSet_addAllWithExclusion stay within the buffers.
  pub exclusion_rounds :
      let excl = size_in_bytes (lesser (lesser s.size o.size) e.size) in
      let total = size_in_bytes (lesser s.size o.size) in
      (excl + (total - excl) ≡ total)
      × (excl + (total - excl) ≤ length s.bytes)
      × (excl + (total - excl) ≤ length o.bytes)
      × (excl ≤ length e.bytes)
  unfolding size_in_bytes
  exclusion_rounds = ground (arith, v.allocated, w.allocated, x.allocated)

  excluding-lt :
      (k rest i : ℕ)
      → k + rest ≤ length s.bytes
      → k + rest ≤ length o.bytes
      → k ≤ length e.bytes
      → get_or (or_bytes_excluding k rest s.bytes o.bytes e.bytes) i 0 < 2 ^ 8
  excluding-lt k rest i h1 h2 h3 = ground (
    arith,
    get_or-or_bytes_excluding k rest s.bytes o.bytes e.bytes i,
    or_byte-lt s o v w i,
    or_byte_excluding-lt s o v w i (get_or e.bytes i 0),
    v.is_bytes i,
  )

  pub add_all_with_exclusion-IsValid : IsValid (add_all_with_exclusion s o e)
  unfolding add_all_with_exclusion
  add_all_with_exclusion-IsValid =
      let (_, in_s, in_o, in_e) = exclusion_rounds in
      record {
        allocated = length-or_bytes_excluding _ _ s.bytes o.bytes e.bytes ∙ v.allocated;
        is_bytes = λ i. excluding-lt _ _ i in_s in_o in_e;
      }
