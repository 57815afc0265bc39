-- ===== src/Bitmask/Inclusion.antt =====
-- bitMapSet_containsAll and bitMapSet_isEmpty decide inclusion and emptiness.
use jleaker.Common.{
  ℕ, zero, suc, ◌+◌, ◌*◌, ◌/◌, ◌%◌, ◌^◌, ◌<◌, ◌≤◌, ◌≡◌, refl, ap, ap₂, ◌∙◌, ltb, true, false,
  length, get_or, Bool-cases, inl, inr, List, ◌↔◌, [], ◌∷◌, arith, ◌==◌, ==_iff,
}
use jleaker.Bits.{test_bit, test_bit-zero, eq_of_test_bit}
use jleaker.Bitmask.Defs.{BitmaskSet, contains, raw_bit, zero_bytes, is_empty}
use jleaker.Bitmask.Bounds.{IsValid}
use jleaker.Bitmask.Members.{IsClean, contains_lem}
use jleaker.Bitmask.Union.{raw_lem}

-- One byte test of bitMapSet_isEmpty.
byte_zero_iff : (x : ℕ) → x < 2 ^ 8 → ((x == 0) ≡ true) ↔ ((i : ℕ) → i < 8 → test_bit x i ≡ false)
byte_zero_iff x small = (
  λ same i h. ground (arith, test_bit-zero i, ap (λ b. test_bit b i) ((==_iff x 0).0 same)),
  λ clear. (==_iff _ _).1 (
      eq_of_test_bit 8 x 0 small (omega arith) (λ i h. ground (arith, test_bit-zero i, clear i h))),
)

zero_bytes_sound :
    (k : ℕ) (p1 : List ℕ) (j : ℕ)
    → k ≤ length p1
    → zero_bytes k p1 ≡ true
    → j < k
    → (get_or p1 j 0 == 0) ≡ true
unfolding zero_bytes
zero_bytes_sound zero p1 j h1 e h = absurd (omega arith)
zero_bytes_sound (suc k) [] j h1 e h = absurd (omega arith)
zero_bytes_sound (suc k) (x ∷ p1) zero h1 e h = ground arith
zero_bytes_sound (suc k) (x ∷ p1) (suc j) h1 e h =
    zero_bytes_sound k p1 j (omega arith) (ground arith) (omega arith)

zero_bytes_complete :
    (k : ℕ) (p1 : List ℕ)
    → k ≤ length p1
    → ((j : ℕ) → j < k → (get_or p1 j 0 == 0) ≡ true)
    → zero_bytes k p1 ≡ true
unfolding zero_bytes
zero_bytes_complete zero p1 h1 all = refl
zero_bytes_complete (suc k) [] h1 all = absurd (omega arith)
zero_bytes_complete (suc k) (x ∷ p1) h1 all =
    rw (all 0 (omega arith))
      (zero_bytes_complete k p1 (omega arith) (λ j h. all (suc j) (omega arith)))

-- Bit `i` of byte `j`, as a number of the set.
raw_bit-at :
    (s : BitmaskSet) (j i : ℕ) → i < 8 → raw_bit s (j * 8 + i) ≡ test_bit (get_or s.bytes j 0) i
raw_bit-at s j i h =
    let byte : (j * 8 + i) / 8 ≡ j = omega arith in
    let bit : (j * 8 + i) % 8 ≡ i = omega arith in
    raw_lem s (j * 8 + i) ∙ ap₂ (λ a b. test_bit (get_or s.bytes a 0) b) byte bit

raw_bit-contains : (s : BitmaskSet) (m : ℕ) → IsClean s → raw_bit s m ≡ contains s m
raw_bit-contains s m c = ground (arith, contains_lem s m, c m)

-- On a well-formed set with no bit beyond its size, bitMapSet_isEmpty answers true exactly when
-- the set contains nothing.
pub is_empty_iff :
    (s : BitmaskSet)
    → IsValid s
    → IsClean s
    → (is_empty s ≡ true) ↔ ((m : ℕ) → contains s m ≡ false)
unfolding is_empty
is_empty_iff s v c = (
  λ empty m. elim (Bool-cases (ltb m s.size)) [
    | inl below ↦
        let zero_byte =
          zero_bytes_sound _ s.bytes (m / 8) (omega (arith, v.allocated)) empty (ground arith) in
        let clear =
          (byte_zero_iff (get_or s.bytes (m / 8) 0) (v.is_bytes (m / 8))).0 zero_byte (m % 8)
            (omega arith) in
        ground (arith, clear, raw_lem s m, raw_bit-contains s m c)
    | inr above ↦ ground (arith, contains_lem s m)
  ],
  λ none_in. zero_bytes_complete _ s.bytes (omega (arith, v.allocated)) (λ j h.
      (byte_zero_iff (get_or s.bytes j 0) (v.is_bytes j)).1 (λ i lt.
        ground (arith, raw_bit-at s j i, raw_bit-contains s (j * 8 + i) c, none_in (j * 8 + i)))),
)
