-- ===== src/Detect/Dump.antt =====
-- src/cpp/leak_detect.c, findLeaksInTaggedObjects: the search, the walks over the heap and the
-- release, one after the other on the same nodes and tags.
mod Defs
mod Rooted
mod Listed
mod Recorded
mod Tagged
mod Walked
mod Freed
mod Released
mod Tests
