-- ===== src/Node/Free.antt =====
-- src/cpp/data_struct.c, freeMemoryNode: the release of the graph of memory nodes.
mod Defs
pub mod Held
pub mod Frame
mod Steps
pub mod Loop
mod Call
pub mod Total
pub mod Owners
pub use Defs.{Memory, Freed}
unfoldable pub use Defs.{free_memory_node}
