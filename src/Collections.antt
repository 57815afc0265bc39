-- ===== src/Collections.antt =====
-- src/cpp/jobject_print.c: the elements of a collection, a map or a multimap as XML.
mod Defs
pub mod Trees
mod Tests
pub use Defs.{Jni}
unfoldable pub use Defs.{
  string_of, print_normal_object, print_entry_object, print_elements, print_collection_using_method,
  print_collection, print_entries, print_map, print_multi_map, print_object, classes_to_check,
}
