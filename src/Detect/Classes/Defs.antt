-- ===== src/Detect/Classes/Defs.antt =====
-- fillClassIgnoreList and tagAllClasses on the store of nodes, the map of limits and the tags.
use jleaker.Common.{
  ℕ, Bool, true, false, not, ◌==◌, if◌then◌else◌, Option, none, some, ◌>>=◌, List, [], ◌∷◌, ◌++◌,
  set, bit_and, Bytes,
}
use jleaker.Reference.Fields.Jvm.{Jvm}
use jleaker.Reference.Fields.{get_field_offset}
use jleaker.Node.Defs.{IgnoreField, MemoryNode, Store, node_at, new_memory_node}
use jleaker.Configuration.{StrMap}

-- What JVMTI and JNI answer about the loaded classes: GetClassStatus, get_class_name, and whether
-- the class is java.lang.Class.
pub record Loaded : Type 0 where
  pub jvm : Jvm
  pub status : ℕ → ℕ
  pub name : ℕ → Bytes
  pub is_class_class : ℕ → Bool

-- VERIFIED, PREPARED and INITIALIZED are 1, 2 and 4.
abbrev pub is_ready : Loaded → ℕ → Bool
is_ready loaded klass = bit_and (loaded.status klass) 7 == 7

-- `tag` has the tag of each object, `none` for 0.
pub record State (strmap : StrMap) : Type 0 where
  pub nodes : Store
  pub ignore_referenced_by : strmap.Map
  pub tag : ℕ → Option ℕ
  pub class_nodes : List ℕ

-- sm_get, which leaves NULL where the key is missing; NULL is also what is put for a list without
-- elements.
abbrev pub or_null : Option (List IgnoreField) → List IgnoreField
or_null none = []
or_null (some fields) = fields

abbrev pub limits_of : (strmap : StrMap) → strmap.Map → Bytes → List IgnoreField
limits_of strmap m name = or_null (strmap.get m name)

abbrev pub set_tag : ℕ → Option ℕ → (ℕ → Option ℕ) → ℕ → Option ℕ
set_tag object tag tags o = if o == object then tag else tags o

module _ (strmap : StrMap) (loaded : Loaded) where
  -- The loop that sets the offset of each field; `none` where the fuel of getFieldOffset ran out.
  unfoldable pub fill_offsets : (fuel klass : ℕ) → List IgnoreField → Option (List IgnoreField)
  unfolding get_field_offset
  fill_offsets fuel klass [] = some []
  fill_offsets fuel klass (f ∷ fs) = do
    offset ← get_field_offset loaded.jvm fuel klass f.field_name
    rest ← fill_offsets fuel klass fs
    some (record f { field = offset } ∷ rest)

  -- fillClassIgnoreList for a node whose `obj` is the class.
  unfoldable pub fill_class_ignore_list :
      (fuel klass : ℕ) → MemoryNode → strmap.Map → Option (MemoryNode × strmap.Map)
  unfolding fill_offsets
  fill_class_ignore_list fuel klass node m =
      if not (is_ready loaded klass)
      then some (node, m)
      else (elim (limits_of strmap m (loaded.name klass)) [
        | [] ↦ some (node, m)
        | f ∷ fs ↦ do
          fields ← fill_offsets fuel klass (f ∷ fs)
          some (record node { ignore_fields = fields }, strmap.put m (loaded.name klass) [])
      ])

  -- The body of the loop of tagAllClasses.
  unfoldable pub tag_class : (fuel number_of_leaks klass : ℕ) → State strmap → Option (State strmap)
  unfolding fill_class_ignore_list new_memory_node
  tag_class fuel number_of_leaks klass s =
      let (p, nodes) = new_memory_node number_of_leaks s.nodes in
      let node = record (node_at nodes p) { obj = some klass; class_node = true } in
      elim (loaded.is_class_class klass) [
        | true ↦ some (record s { tag = set_tag klass none s.tag })
        | false ↦ do
          (filled, m) ← fill_class_ignore_list fuel klass node s.ignore_referenced_by
          some (record {
            nodes = set nodes p filled;
            ignore_referenced_by = m;
            tag = set_tag klass (some p) s.tag;
            class_nodes = s.class_nodes ++ p ∷ [];
          })
      ]

  unfoldable pub tag_classes :
      (fuel number_of_leaks : ℕ) → (classes : List ℕ) → State strmap → Option (State strmap)
  unfolding tag_class
  tag_classes fuel number_of_leaks [] s = some s
  tag_classes fuel number_of_leaks (klass ∷ classes) s = do
    s' ← tag_class fuel number_of_leaks klass s
    tag_classes fuel number_of_leaks classes s'

  -- tagAllClasses, for the classes that GetLoadedClasses returns.
  unfoldable pub tag_all_classes :
      (fuel number_of_leaks : ℕ) → (classes : List ℕ) → State strmap → Option (State strmap)
  unfolding tag_classes
  tag_all_classes fuel number_of_leaks classes s =
      tag_classes fuel number_of_leaks classes (record s { class_nodes = [] })
