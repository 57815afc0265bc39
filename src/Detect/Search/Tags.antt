-- ===== src/Detect/Search/Tags.antt =====
-- From a class to the tag of its objects, and back to the place of the class in the table.
use jleaker.Common.{
  ℕ, ◌+◌, ◌<◌, ◌≤◌, ◌^◌, ◌≡◌, refl, ap, Bool, true, false, not, ◌&&◌, if◌then◌else◌, Option, none,
  some, List, [], ◌∷◌, length, ◌⊎◌, inl, inr, Bool-cases, arith,
}
use jleaker.Common.Int.{ℤ, pos, ◌+ℤ◌, ◌-ℤ◌, ltb_ℤ, ◌==ℤ◌, int_laws, pos-+ℤ}
use jleaker.Options.{to_int}
use jleaker.Detect.Search.Defs.{
  ClassFacts, initial_class_tag, class_class_initial_tag, rejects, assignable_tag,
  generate_tag_for_class, cb_heap_object, tag_index,
}

-- The first loaded class of the table to which the class is assignable, counted from `j`.
unfoldable pub first_assignable : (ℕ → Bool) → List (Option ℕ) → ℕ → Option ℕ
first_assignable is_assignable [] j = none
first_assignable is_assignable (none ∷ ks) j = first_assignable is_assignable ks (j + 1)
first_assignable is_assignable (some k ∷ ks) j =
    let later = first_assignable is_assignable ks (j + 1) in
    if is_assignable k then some j else later

-- The classes whose objects are looked at: no interfaces, arrays, inner or ignored classes.
unfoldable pub is_eligible : ClassFacts → Bool
is_eligible c =
    not (rejects c.is_interface)
    && (not (rejects c.is_array_class) && (not c.has_enclosing_class && not c.is_ignored))

assignable_tag_lem :
    (f : ℕ → Bool) (ks : List (Option ℕ)) (j : ℕ)
    → ((assignable_tag f ks j ≡ pos 0) × (first_assignable f ks j ≡ none))
      ⊎ ((i : ℕ) × (assignable_tag f ks j ≡ initial_class_tag +ℤ pos i)
          × (first_assignable f ks j ≡ some i)
          × (i < j + length ks))
unfolding assignable_tag first_assignable
assignable_tag_lem f [] j = inl (refl, refl)
assignable_tag_lem f (none ∷ ks) j = elim (assignable_tag_lem f ks (j + 1)) [
  | inl (t, n) ↦ inl (t, n)
  | inr (i, t, n, h) ↦ inr (i, t, n, omega arith)
]
assignable_tag_lem f (some k ∷ ks) j = elim (Bool-cases (f k)) [
  | inl here ↦ inr (j, ground arith, ground arith, omega arith)
  | inr away ↦ elim (assignable_tag_lem f ks (j + 1)) [
    | inl (t, n) ↦ inl (ground arith, ground arith)
    | inr (i, t, n, h) ↦ inr (i, ground arith, ground arith, omega arith)
  ]
]

-- An object whose class has no place in the table gets no tag, and another gets that of its place.
heap_zero : (num : ℕ) (tag : ℤ) → tag_index num (cb_heap_object num (pos 0) tag) ≡ none
unfolding cb_heap_object tag_index ◌-ℤ◌ to_int
heap_zero num tag = ground arith

place-sub : (i : ℕ) → pos (195939070 + i) -ℤ initial_class_tag ≡ pos i
place-sub i = omega int_laws

small_int : (i : ℕ) → i < 2 ^ 31 → to_int (pos i) ≡ pos i
unfolding to_int
small_int i h = ground arith

heap_place :
    (num i : ℕ) (tag : ℤ)
    → i < num
    → 195939070 + num ≤ 267312557
    → tag_index num (cb_heap_object num (initial_class_tag +ℤ pos i) tag) ≡ some i
unfolding cb_heap_object tag_index
heap_place num i tag h bound =
    let sum : initial_class_tag +ℤ pos i ≡ pos (195939070 + i) = pos-+ℤ 195939070 i in
    let apart : (pos (195939070 + i) ==ℤ class_class_initial_tag) ≡ false = ground arith in
    let above : ltb_ℤ (pos (195939070 + i)) initial_class_tag ≡ false = ground arith in
    let below : ltb_ℤ (pos i) (pos num) ≡ true = ground arith in
    let tagged : cb_heap_object num (pos (195939070 + i)) tag ≡ pos (195939070 + i) =
      rw (apart, above, place-sub i, below) refl in
    rw (sum, tagged, place-sub i, small_int i (omega arith), below) (ground arith)

class_kept : (num : ℕ) (tag : ℤ) → cb_heap_object num class_class_initial_tag tag ≡ tag
unfolding cb_heap_object
class_kept num tag = refl

place_lem :
    (sizeable : List (Option ℕ)) (c : ClassFacts) (tag : ℤ)
    → 195939070 + length sizeable ≤ 267312557
    → tag_index
        (length sizeable)
        (cb_heap_object (length sizeable) (assignable_tag c.is_assignable_to sizeable 0) tag)
      ≡ first_assignable c.is_assignable_to sizeable 0
place_lem sizeable c tag bound = elim (assignable_tag_lem c.is_assignable_to sizeable 0) [
  | inl (t, n) ↦ rw (t, n) (heap_zero (length sizeable) tag)
  | inr (i, t, n, h) ↦ rw (t, n) (heap_place (length sizeable) i tag (omega arith) bound)
]

-- After the first walk, an object carries the place of the first loaded class of the table to
-- which its class is assignable, if the class is eligible and there is one, and none otherwise.
-- The object of the class Class itself keeps its tag. The table must be small enough for the two
-- kinds of tags to differ.
pub tag_index-cb_heap_object :
    (sizeable : List (Option ℕ)) (c : ClassFacts) (tag : ℤ)
    → 195939070 + length sizeable ≤ 267312557
    → tag_index
        (length sizeable)
        (cb_heap_object (length sizeable) (generate_tag_for_class sizeable c) tag)
      ≡ (if c.is_class_class
          then tag_index (length sizeable) tag
          else (if is_eligible c then first_assignable c.is_assignable_to sizeable 0 else none))
unfolding generate_tag_for_class is_eligible
tag_index-cb_heap_object sizeable c tag bound =
    let num = length sizeable in
    let untagged = heap_zero num tag in
    elim (Bool-cases c.is_class_class) [
      | inl meta ↦ rw meta (ap (tag_index num) (class_kept num tag))
      | inr plain ↦ elim (Bool-cases (rejects c.is_interface)) [
        | inl interface ↦ rw (plain, interface) untagged
        | inr no_interface ↦ elim (Bool-cases (rejects c.is_array_class)) [
          | inl array ↦ rw (plain, no_interface, array) untagged
          | inr no_array ↦ elim (Bool-cases c.has_enclosing_class) [
            | inl inner ↦ rw (plain, no_interface, no_array, inner) untagged
            | inr outer ↦ elim (Bool-cases c.is_ignored) [
              | inl ignored ↦ rw (plain, no_interface, no_array, outer, ignored) untagged
              | inr kept ↦
                  rw (plain, no_interface, no_array, outer, kept) (place_lem sizeable c tag bound)
            ]
          ]
        ]
      ]
    ]
