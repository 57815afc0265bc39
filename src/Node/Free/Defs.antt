-- ===== src/Node/Free/Defs.antt =====
-- freeMemoryNode. A node that has been freed stays in the store, and `freed` marks its address; to
-- follow a pointer to it is a fault.
use jleaker.Common.{
  ℕ, zero, suc, ◌+◌, Bool, true, false, ◌==◌, if◌then◌else◌, Option, none, some, List, [], ◌∷◌, set,
}
use jleaker.Common.Int.{pos, ◌-ℤ◌, ltb_ℤ}
use jleaker.Bitmask
use jleaker.Node.Defs.{MemoryReferer, MemoryNode, Store, node_at}

-- `nodes_freed` is that of the thread data.
pub record Memory : Type 0 where
  pub nodes : Store
  pub freed : ℕ → Bool
  pub nodes_freed : ℕ

-- `exhausted` means that the fuel ran out, `faulted` that a freed node was used; `done` has what is
-- returned.
pub data Freed : Type 0 where
  exhausted faulted : Freed
  done : Bool → Memory → Freed

abbrev pub write_node : ℕ → MemoryNode → Memory → Memory
write_node a n m = record m { nodes = set m.nodes a n }

-- `node->reference_pointing_to_me--`
unfoldable pub decrement : MemoryNode → MemoryNode
unfolding ◌-ℤ◌
decrement n = record n { reference_pointing_to_me = n.reference_pointing_to_me -ℤ pos 1 }

-- From `node->visited = JNI_TRUE` to the loop. The set of leaks that bitMaskSet_free frees is one
-- without room.
unfoldable pub strip : MemoryNode → MemoryNode
strip n = record n {
  visited = true;
  classname = none;
  klass = none;
  obj = none;
  ignore_fields = [];
  leaks_related = Bitmask.new 0;
}

-- The assignments behind the two loops.
unfoldable pub without_lists : MemoryNode → MemoryNode
without_lists n = record n { referers = []; fan_in = [] }

-- The end of the function: the node is freed if nothing points to it any more.
unfoldable pub free_or_keep : ℕ → MemoryNode → Memory → Freed
free_or_keep a n m =
    if ltb_ℤ (pos 0) n.reference_pointing_to_me
    then done false (write_node a (record n { visited = false }) m)
    else done true (record {
      nodes = set m.nodes a n;
      freed = λ b. if b == a then true else m.freed b;
      nodes_freed = m.nodes_freed + 1;
    })

-- What comes after the loop over the references.
unfoldable pub after_references : ℕ → Freed → Freed
unfolding without_lists free_or_keep
after_references a exhausted = exhausted
after_references a faulted = faulted
after_references a (done r m) = free_or_keep a (without_lists (node_at m.nodes a)) m

-- The loop over the references, where `free` is the recursive call.
unfoldable pub free_references :
    (free : Option ℕ → Memory → Freed) → List MemoryReferer → Memory → Freed
free_references free [] m = done false m
free_references free (ref ∷ refs) m = elim (free ref.node m) [
  | exhausted ↦ exhausted
  | faulted ↦ faulted
  | done r m' ↦ free_references free refs m'
]

unfoldable pub free_memory_node : (fuel : ℕ) → Option ℕ → Memory → Freed
unfolding decrement strip free_references after_references
free_memory_node zero p m = exhausted
free_memory_node (suc fuel) none m = done false m
free_memory_node (suc fuel) (some a) m =
    let n = decrement (node_at m.nodes a) in
    elim (m.freed a) [
      | true ↦ faulted
      | false ↦ elim n.visited [
        | true ↦ done false (write_node a n m)
        | false ↦
            after_references a
              (free_references (free_memory_node fuel) n.referers (write_node a (strip n) m))
      ]
    ]
