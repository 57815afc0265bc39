-- ===== src/Reference/Fields/Tests.antt =====
-- A class with a superclass, and an interface that both of them list.
use jleaker.Common.{◌+◌, ◌≡◌, refl, ◌==◌, if◌then◌else◌, none, some, ◌>>=◌, [], ◌∷◌, arith}
use jleaker.Common.Int.{ℤ, pos, negsuc, ◌+ℤ◌, ◌-ℤ◌}
use jleaker.Reference.Fields.Jvm.{Jvm}
use jleaker.Reference.Fields.{get_field_offset, get_field_name_by_index}
use jleaker.Reference.Fields.Layout.{field_total, layout}
use jleaker.Reference.Fields.Offset.{index_of, get_field_offset_lem}
use jleaker.Reference.Fields.Name.{name_at, get_field_name_by_index_lem}
use jleaker.Reference.Fields.Total.{IsRanked}
use jleaker.Reference.Fields.RoundTrip.{Answers, name_by_index-offset}

-- Class 2 extends class 1; both implement the interface 0, which has one field.
abbrev jvm : Jvm
jvm = record {
  superclass = λ k. if k == 2 then some 1 else none;
  interfaces = λ k. if k == 0 then [] else 0 ∷ [];
  class_fields = λ k. if k == 0 then 7 ∷ [] else 8 ∷ 9 ∷ [];
  field_name = λ k f. k ∷ f ∷ [];
}

offsets :
    (get_field_offset jvm 3 2 (1 ∷ 8 ∷ []) ≡ some (pos 1))
    × (get_field_offset jvm 3 2 (2 ∷ 9 ∷ []) ≡ some (pos 4))
    × (get_field_offset jvm 3 2 (2 ∷ 7 ∷ []) ≡ some (negsuc 0))
    × (get_field_name_by_index jvm 3 2 (pos 4) ≡ some (some (2 ∷ 9 ∷ [])))
    × (get_field_name_by_index jvm 3 2 (pos 0) ≡ some none)
    × (get_field_name_by_index jvm 1 2 (pos 0) ≡ none)
unfolding get_field_offset get_field_name_by_index ◌+ℤ◌ ◌-ℤ◌
offsets = (refl, refl, refl, refl, refl, refl)

ranked : IsRanked jvm (λ k. k)
ranked = record { interfaces_below = λ k. ground arith; superclass_below = λ k s e. ground arith }

name_by_index-offset_example :
    (idx : ℤ) × (get_field_offset jvm 3 2 (2 ∷ 9 ∷ []) ≡ some idx)
    × Answers jvm (2 ∷ 9 ∷ []) 3 2 idx
name_by_index-offset_example =
    name_by_index-offset jvm (2 ∷ 9 ∷ []) (λ k. k) 3 2 ranked (omega arith)

get_field_offset_lem_example : get_field_offset jvm 3 2 (2 ∷ 9 ∷ []) ≡ (
    layout jvm 3 2 [] >>= λ x.
    some (elim (index_of (2 ∷ 9 ∷ []) x.0) [
      | some i ↦ pos (field_total jvm x.1 + i)
      | none ↦ negsuc 0
    ]))
get_field_offset_lem_example = get_field_offset_lem jvm 3 2 (2 ∷ 9 ∷ [])

get_field_name_by_index_lem_example :
    get_field_name_by_index jvm 3 2 (pos 4)
    ≡ (layout jvm 3 2 [] >>= λ x. some (name_at jvm (pos 4) x.0 x.1))
get_field_name_by_index_lem_example = get_field_name_by_index_lem jvm 3 2 (pos 4)
