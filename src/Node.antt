-- ===== src/Node.antt =====
-- src/cpp/data_struct.h and data_struct.c: the graph of memory nodes that the heap walk builds.
pub mod Defs
pub mod Counts
pub mod FanIn
pub mod Update
pub mod Free
mod Tests
