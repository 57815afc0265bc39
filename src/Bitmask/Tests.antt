-- ===== src/Bitmask/Tests.antt =====
-- Runs of the set operations, and the theorems at concrete sets.
use jleaker.Common.{ℕ, ◌≡◌, ◌↔◌, refl, true, false, ◌&&◌, ◌||◌, not, ◌==◌, ltb, arith}
use jleaker.Bitmask.{
  BitmaskSet, new, add, remove, contains, add_all, add_all_with_exclusion, contains_all, is_empty,
  raw_bit,
}
use jleaker.Bitmask.Bounds.{IsValid, new-IsValid, add-IsValid}
use jleaker.Bitmask.Members.{IsClean, IsClean-new, IsClean-add, contains-update}
use jleaker.Bitmask.Union.{contains-add_all, contains-add_all_with_exclusion, add_all-spare_bit}
use jleaker.Bitmask.Inclusion.{is_empty_iff}

abbrev empty : BitmaskSet
empty = new 20

abbrev one : BitmaskSet
one = add empty 9

abbrev two : BitmaskSet
two = add one 17

empty-IsValid : IsValid empty
empty-IsValid = new-IsValid 20

one-IsValid : IsValid one
one-IsValid = add-IsValid empty empty-IsValid 9

two-IsValid : IsValid two
two-IsValid = add-IsValid one one-IsValid 17

empty-IsClean : IsClean empty
empty-IsClean = IsClean-new 20

one-IsClean : IsClean one
one-IsClean = IsClean-add empty 9 empty-IsValid empty-IsClean

two-IsClean : IsClean two
two-IsClean = IsClean-add one 17 one-IsValid one-IsClean

two_members :
    (contains two 9 ≡ true)
    × (contains two 17 ≡ true)
    × (contains two 8 ≡ false)
    × (contains (remove two 9) 9 ≡ false)
    × (is_empty empty ≡ true)
    × (is_empty two ≡ false)
    × (contains_all two one ≡ true)
    × (contains_all one two ≡ false)
unfolding new add remove contains is_empty contains_all
two_members = (refl, refl, refl, refl, refl, refl, refl, refl)

contains-update_example :
    (contains (new two.size) 9 ≡ false)
    × (contains (add two 9) 9 ≡ (contains two 9 || (ltb 9 two.size && (9 == 9))))
    × (contains (remove two 9) 9 ≡ (contains two 9 && not (9 == 9)))
contains-update_example = contains-update two 9 9 two-IsValid

contains-add_all_example :
    contains (add_all one two) 17 ≡ (contains one 17 || (ltb 17 one.size && contains two 17))
contains-add_all_example = contains-add_all one two 17 one-IsValid two-IsValid two-IsClean

contains-add_all_with_exclusion_example :
    contains (add_all_with_exclusion empty two one) 17
    ≡ (contains empty 17 || (ltb 17 empty.size && (contains two 17 && not (contains one 17))))
contains-add_all_with_exclusion_example =
    contains-add_all_with_exclusion empty two one 17 empty-IsValid two-IsValid one-IsValid
      two-IsClean one-IsClean

is_empty_iff_example : (is_empty two ≡ true) ↔ ((m : ℕ) → contains two m ≡ false)
is_empty_iff_example = is_empty_iff two two-IsValid two-IsClean

nine-contained : contains two 17 ≡ true
unfolding new add contains
nine-contained = refl

add_all-spare_bit_example :
    (raw_bit (add_all (new 17) two) 17 ≡ true) × (contains (add_all (new 17) two) 17 ≡ false)
add_all-spare_bit_example =
    add_all-spare_bit (new 17) two 17 (new-IsValid 17) two-IsValid (unfold new in omega arith)
      (unfold new in omega arith) nine-contained
