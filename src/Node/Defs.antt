-- ===== src/Node/Defs.antt =====
-- Memory nodes live in a store; a `MemoryNode*` is an index into it, and NULL is `none`. The list
-- of referers from `start` to `last` is a list.
use jleaker.Common.{
  ℕ, ◌+◌, Bool, true, false, ◌&&◌, ◌==◌, if◌then◌else◌, Option, none, some, List, [], ◌∷◌, ◌++◌,
  length, get_or, set, Bytes,
}
use jleaker.Common.Int.{ℤ, pos, ◌+ℤ◌}
use jleaker.Bitmask.{BitmaskSet}
use jleaker.Bitmask
use jleaker.Reference.Kind.{Kind, ReferenceInfo, kind_eq, info_eq}

-- `info` is `none` where the memory was left cleared, since JVMTI passed no information.
pub record MemoryReferer : Type 0 where
  pub kind : Kind
  pub info : Option ReferenceInfo
  pub node : Option ℕ

-- How often objects of one class were seen to refer to the node.
pub record ClassReferenceCount : Type 0 where
  pub klass : ℕ
  pub count : ℕ

pub record IgnoreField : Type 0 where
  pub field : ℤ
  pub field_name : Bytes
  pub threshold : ℤ

-- `klass` and `obj` are JNI references, `none` for NULL.
pub record MemoryNode : Type 0 where
  pub visited : Bool
  pub dead : Bool
  pub class_node : Bool
  pub klass : Option ℕ
  pub obj : Option ℕ
  pub leak_size : ℤ
  pub classname : Option Bytes
  pub referers : List MemoryReferer
  pub leaks_related : BitmaskSet
  pub reference_pointing_to_me : ℤ
  pub fan_in : List ClassReferenceCount
  pub ignore_fields : List IgnoreField

-- newMemoryNode clears the memory, so its reference count goes from 0 to 1.
unfoldable pub fresh_node : (number_of_leaks : ℕ) → MemoryNode
fresh_node number_of_leaks = record {
  visited = false;
  dead = false;
  class_node = false;
  klass = none;
  obj = none;
  leak_size = pos 0;
  classname = none;
  referers = [];
  leaks_related = Bitmask.new number_of_leaks;
  reference_pointing_to_me = pos 0 +ℤ pos 1;
  fan_in = [];
  ignore_fields = [];
}

abbrev pub Store : Type 0
Store = List MemoryNode

-- `*p`; every pointer that the agent follows lies in the store.
abbrev pub node_at : Store → ℕ → MemoryNode
node_at st p = get_or st p (fresh_node 0)

-- newMemoryNode: the new node stands behind the others.
unfoldable pub new_memory_node : ℕ → Store → ℕ × Store
unfolding fresh_node
new_memory_node number_of_leaks st = (length st, st ++ fresh_node number_of_leaks ∷ [])

-- `p == q` on pointers.
abbrev pub ptr_eq : Option ℕ → Option ℕ → Bool
ptr_eq none none = true
ptr_eq (some a) (some b) = a == b
ptr_eq _ _ = false

-- `(NULL == reference_info) || (0 == memcmp(reference_info, &ref->info, ...))`
unfoldable pub info_matches : Option ReferenceInfo → Option ReferenceInfo → Bool
info_matches none stored = true
info_matches (some given) none = false
info_matches (some given) (some stored) = info_eq given stored

-- The loop of hasReferenceBetweenObjects over the referers of its first node.
unfoldable pub has_reference_between_objects :
    List MemoryReferer → Option ℕ → Kind → Option ReferenceInfo → Bool
unfolding info_matches
has_reference_between_objects [] n2 kind info = false
has_reference_between_objects (r ∷ rs) n2 kind info =
    let later = has_reference_between_objects rs n2 kind info in
    if kind_eq r.kind kind && (info_matches info r.info && ptr_eq r.node n2) then true else later

-- The loop of addReferenceClass: the new count of the class, and the list with it.
unfoldable pub count_class : ℕ → List ClassReferenceCount → ℕ × List ClassReferenceCount
count_class the_class [] = (1, record { klass = the_class; count = 1 } ∷ [])
count_class the_class (c ∷ cs) =
    let rest = count_class the_class cs in
    if c.klass == the_class
    then (c.count + 1, record { klass = c.klass; count = c.count + 1 } ∷ cs)
    else (rest.0, c ∷ rest.1)

-- addReferenceClass; `none` is fatal_error, which ends the process. A class node has an object.
unfoldable pub add_reference_class : Store → (node class_node : ℕ) → Option (ℕ × Store)
unfolding count_class
add_reference_class st node class_node =
    if (node_at st class_node).class_node
    then (elim (node_at st class_node).obj [
      | some the_class ↦
          let counted = count_class the_class (node_at st node).fan_in in
          some (counted.0, set st node (record (node_at st node) { fan_in = counted.1 }))
      | none ↦ none
    ])
    else none
