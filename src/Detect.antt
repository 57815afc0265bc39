-- ===== src/Detect.antt =====
-- src/cpp/leak_detect.c: the search for large collections and the walks over the heap.
pub mod Search
pub mod Walk
pub mod Rounds
pub mod Release
pub mod Classes
pub mod Dump
mod Tests
