-- ===== src/Reference/Printing.antt =====
-- src/cpp/jvm_reference.c: the text of a reference, and what is printed for the leaks.
mod Format
mod Defs
mod Leaks
pub mod Whole
pub mod Chain
pub mod Untouched
mod Tests
pub use Defs.{Facts}
pub use Leaks.{Printed}
unfoldable pub use Leaks.{print_references_chain_for_leaking_nodes}
unfoldable pub use Defs.{reference_message}
