-- ===== src/Detect/Search.antt =====
-- src/cpp/leak_detect.c: which classes and objects the first heap walk tags, and which of the tagged
-- objects searchObjectsForLeaks reports.
mod Defs
pub mod Tags
pub mod Leaks
mod Tests
pub use Defs.{
  ClassFacts, SearchConfig, LeakingNode, SearchState, initial_class_tag, class_class_initial_tag,
}
unfoldable pub use Defs.{
  rejects, assignable_tag, generate_tag_for_class, cb_heap_object, tag_index, object_size,
  object_printer, add_leak, search_object, search_objects_for_leaks,
}
