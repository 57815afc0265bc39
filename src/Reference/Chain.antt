-- ===== src/Reference/Chain.antt =====
-- src/cpp/jvm_reference.c, generateReferencesChainForNode: the depth-first search, along the recorded
-- references, from a leaked object to a root of the heap.
mod Defs
pub mod Fill
pub mod Named
pub mod Frame
pub mod Steps
pub mod Explored
pub mod Result
pub mod Loop
pub mod Visit
pub mod Found
pub mod Total
pub mod Decided
pub mod Untouched
pub mod Marks
mod Tests
pub use Defs.{Jvm, Search}
unfoldable pub use Defs.{
  fill_node, fill_class_in_memory_node, set_visited, remove_leak, refs_loop, finish,
  generate_references_chain_for_node,
}
