-- ===== src/Allocator.antt =====
-- src/cpp/allocator.c: the counters of allocations, and the doubly linked list of the blocks that
-- are not freed, which is kept where the self check is on.
mod Defs
pub mod Linked
pub mod Blocks
mod Tests
pub use Defs.{Heap, Allocator, head, tail}
unfoldable pub use Defs.{init_allocator, fill_malloc_node, unlink, my_alloc, my_free}
