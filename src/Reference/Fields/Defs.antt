-- ===== src/Reference/Fields/Defs.antt =====
-- The recursions of src/cpp/jvm_reference.c over a class's ancestors. Each runs on fuel, which
-- bounds the depth of the hierarchy; `none` means that the fuel ran out.
use jleaker.Common.{
  ℕ, zero, suc, ◌+◌, Bool, true, false, ◌==◌, if◌then◌else◌, Option, none, some, ◌>>=◌, List, [],
  ◌∷◌, length, get_elem?, Bytes, str_eq,
}
use jleaker.Common.Int.{ℤ, pos, negsuc, pos_part, ◌+ℤ◌, ◌-ℤ◌, ltb_ℤ}
use jleaker.Reference.Fields.Jvm.{Jvm}

-- findInterfaceInList: whether the interface is listed, and the list with it at the end. The head
-- of the C list is a cell that is never read.
unfoldable pub find_interface_in_list : List ℕ → ℕ → Bool × List ℕ
find_interface_in_list [] intr = (false, intr ∷ [])
find_interface_in_list (x ∷ xs) intr =
    let rest = find_interface_in_list xs intr in
    if x == intr then (true, x ∷ xs) else (rest.0, x ∷ rest.1)

module _ (jvm : Jvm) where
  -- The loop of removeImplementedInterfacesFromIndex over the interfaces of one class; `inner` is
  -- the recursive call.
  unfoldable pub interfaces_loop :
      (ℕ → ℤ → List ℕ → Option (ℤ × List ℕ)) → List ℕ → ℤ → List ℕ → Option (ℤ × List ℕ)
  unfolding find_interface_in_list ◌-ℤ◌
  interfaces_loop inner [] idx seen = some (idx, seen)
  interfaces_loop inner (intr ∷ intrs) idx seen =
      let listed = find_interface_in_list seen intr in
      elim listed.0 [
        | true ↦ interfaces_loop inner intrs idx listed.1
        | false ↦ do
          (idx', seen') ← inner intr idx listed.1
          interfaces_loop inner intrs (idx' -ℤ pos (length (jvm.class_fields intr))) seen'
      ]

  unfoldable pub remove_implemented_interfaces_from_index : ℕ → ℕ → ℤ → List ℕ → Option (ℤ × List ℕ)
  unfolding interfaces_loop
  remove_implemented_interfaces_from_index zero klass idx seen = none
  remove_implemented_interfaces_from_index (suc fuel) klass idx seen =
      interfaces_loop (remove_implemented_interfaces_from_index fuel) (jvm.interfaces klass) idx
        seen

  -- The loop of getFieldOffsetInternal over the class's own fields, at field number `i`.
  unfoldable pub find_field : ℕ → Bytes → List ℕ → ℕ → Option ℕ
  find_field klass name [] i = none
  find_field klass name (f ∷ fs) i =
      let later = find_field klass name fs (i + 1) in
      if str_eq name (jvm.field_name klass f) then some i else later

  unfoldable pub own_offset : ℕ → Bytes → ℤ → List ℕ → Option (Bool × ℤ × List ℕ)
  own_offset klass name idx seen = elim (find_field klass name (jvm.class_fields klass) 0) [
    | some i ↦ some (true, idx +ℤ pos i, seen)
    | none ↦ some (false, idx +ℤ pos (length (jvm.class_fields klass)), seen)
  ]

  unfoldable pub get_field_offset_internal : ℕ → ℕ → Bytes → ℤ → List ℕ → Option (Bool × ℤ × List ℕ)
  unfolding own_offset find_field remove_implemented_interfaces_from_index str_eq ◌-ℤ◌ ◌+ℤ◌
  get_field_offset_internal zero klass name idx seen = none
  get_field_offset_internal (suc fuel) klass name idx seen = do
    (tmp_idx, seen1) ← remove_implemented_interfaces_from_index (suc fuel) klass (pos 0) seen
    elim (jvm.superclass klass) [
      | none ↦ own_offset klass name (idx -ℤ tmp_idx) seen1
      | some super ↦ do
        (found, idx2, seen2) ← get_field_offset_internal fuel super name (idx -ℤ tmp_idx) seen1
        if found then some (true, idx2, seen2) else own_offset klass name idx2 seen2
    ]

  -- getFieldOffset: -1 if there is no such field.
  unfoldable pub get_field_offset : ℕ → ℕ → Bytes → Option ℤ
  unfolding get_field_offset_internal
  get_field_offset fuel klass name = do
    (res, idx, seen) ← get_field_offset_internal fuel klass name (pos 0) []
    some (if res then idx else negsuc 0)

  -- What getFieldNameByIndexInternal does after the superclass had no answer.
  unfoldable pub own_name : ℕ → ℤ → List ℕ → Option (Option Bytes × ℤ × List ℕ)
  own_name klass idx seen =
      if ltb_ℤ idx (pos 0)
      then some (none, idx, seen)
      else (elim (get_elem? (jvm.class_fields klass) (pos_part idx)) [
        | some field_id ↦ some (some (jvm.field_name klass field_id), idx, seen)
        | none ↦ some (none, idx -ℤ pos (length (jvm.class_fields klass)), seen)
      ])

  unfoldable pub get_field_name_by_index_internal :
      ℕ → ℕ → ℤ → List ℕ → Option (Option Bytes × ℤ × List ℕ)
  unfolding own_name remove_implemented_interfaces_from_index ◌-ℤ◌ ◌+ℤ◌
  get_field_name_by_index_internal zero klass idx seen = none
  get_field_name_by_index_internal (suc fuel) klass idx seen = do
    (idx1, seen1) ← remove_implemented_interfaces_from_index (suc fuel) klass idx seen
    elim (jvm.superclass klass) [
      | none ↦ own_name klass idx1 seen1
      | some super ↦ do
        (field, idx2, seen2) ← get_field_name_by_index_internal fuel super idx1 seen1
        elim field [ some f ↦ some (some f, idx2, seen2) | none ↦ own_name klass idx2 seen2 ]
    ]

  -- getFieldNameByIndex
  unfoldable pub get_field_name_by_index : ℕ → ℕ → ℤ → Option (Option Bytes)
  unfolding get_field_name_by_index_internal
  get_field_name_by_index fuel klass idx = do
    (res, idx', seen) ← get_field_name_by_index_internal fuel klass idx []
    some res
