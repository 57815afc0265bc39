-- ===== src/Reference/Chain/Defs.antt =====
-- fillClassInMemoryNode and generateReferencesChainForNode.
use jleaker.Common.{
  ℕ, zero, suc, Bool, true, false, not, if◌then◌else◌, Option, none, some, ◌>>=◌, List, [], ◌∷◌,
  set, Bytes,
}
use jleaker.Bitmask
use jleaker.Reference.Kind.{is_root_reference, should_consider_this_reference}
use jleaker.Node.Defs.{MemoryReferer, MemoryNode, Store, node_at}

-- What JVMTI and JNI answer: GetObjectsWithTags for a node's address, GetObjectClass, and the name
-- that get_class_name makes of Class.getCanonicalName or of the class's signature.
pub record Jvm : Type 0 where
  pub objects_with_tag : ℕ → List ℕ
  pub object_class : ℕ → ℕ
  pub class_name : ℕ → Bytes

-- `exhausted` means that the fuel ran out, `fatal` is fatal_error. The circular list of references
-- is the list that its reader sees, from `orderedRefs->next` to `orderedRefs`; `[]` is NULL.
pub data Search : Type 0 where
  exhausted fatal : Search
  ends : List MemoryReferer → Store → Search

module _ (jvm : Jvm) where
  -- The end of fillClassInMemoryNode, once the object is known.
  unfoldable pub with_class : MemoryNode → ℕ → MemoryNode
  with_class n o = record n {
    obj = some o;
    klass = some (jvm.object_class o);
    classname = some (jvm.class_name (jvm.object_class o));
  }

  -- The answer of GetObjectsWithTags.
  unfoldable pub with_objects : MemoryNode → List ℕ → Option MemoryNode
  unfolding with_class
  with_objects n [] = some (record n { dead = true })
  with_objects n (o ∷ []) = some (with_class n o)
  with_objects n (o ∷ p ∷ os) = none

  unfoldable pub fill_node : ℕ → MemoryNode → Option MemoryNode
  unfolding with_objects with_class
  fill_node address n = if n.dead then some n else (elim n.klass [
    | some k ↦ some n
    | none ↦ elim n.obj [
      | some o ↦ some (with_class n o)
      | none ↦ with_objects n (jvm.objects_with_tag address)
    ]
  ])

  -- fillClassInMemoryNode of a node that is not NULL; `none` is fatal_error.
  unfoldable pub fill_class_in_memory_node : Store → ℕ → Option Store
  unfolding fill_node
  fill_class_in_memory_node st node = do n ← fill_node node (node_at st node); some (set st node n)

unfoldable pub set_visited : Bool → Store → ℕ → Store
set_visited b st node = set st node (record (node_at st node) { visited = b })

-- `bitMapSet_remove(node->leaks_related, leakNumber)`
unfoldable pub remove_leak : (leak_number : ℕ) → Store → ℕ → Store
remove_leak leak st node = set st node (record (node_at st node) {
  leaks_related = Bitmask.remove (node_at st node).leaks_related leak;
})

-- `node->visited = JNI_FALSE` and the return.
unfoldable pub finish : ℕ → Search → Search
unfolding set_visited
finish node exhausted = exhausted
finish node fatal = fatal
finish node (ends refs st) = ends refs (set_visited false st node)

module _ (jvm : Jvm) (consider : Bool) (leak : ℕ) where
  -- The loop over the referers of `node`; `inner` is the recursive call.
  unfoldable pub refs_loop :
      (inner : ℕ → Store → Search) → (node : ℕ) → List MemoryReferer → Store → Search
  unfolding remove_leak
  refs_loop inner node [] st = ends [] st
  refs_loop inner node (r ∷ rs) st = elim (should_consider_this_reference consider r.kind) [
    | false ↦ refs_loop inner node rs st
    | true ↦ elim (is_root_reference r.kind) [
      | true ↦ ends (r ∷ []) st
      | false ↦ elim r.node [
        | none ↦ fatal
        | some next ↦ elim (inner next st) [
          | exhausted ↦ exhausted
          | fatal ↦ fatal
          | ends [] st' ↦ refs_loop inner node rs (remove_leak leak st' node)
          | ends (s ∷ ss) st' ↦ ends (r ∷ s ∷ ss) st'
        ]
      ]
    ]
  ]

  -- What is done with a node that was just marked and filled.
  unfoldable pub search_filled : (inner : ℕ → Store → Search) → (node : ℕ) → Option Store → Search
  unfolding refs_loop
  search_filled inner node none = fatal
  search_filled inner node (some st) =
      if (node_at st node).dead
      then ends [] st
      else refs_loop inner node (node_at st node).referers st

  unfoldable pub generate_references_chain_for_node : (fuel node : ℕ) → Store → Search
  unfolding search_filled fill_class_in_memory_node set_visited finish
  generate_references_chain_for_node zero node st = exhausted
  generate_references_chain_for_node (suc fuel) node st =
      if (node_at st node).visited
      then ends [] st
      else (if not (Bitmask.contains (node_at st node).leaks_related leak)
          then ends [] st
          else finish node (
              search_filled (generate_references_chain_for_node fuel) node
                (fill_class_in_memory_node jvm (set_visited true st node) node)))
