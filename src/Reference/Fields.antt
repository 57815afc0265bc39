-- ===== src/Reference/Fields.antt =====
-- src/cpp/jvm_reference.c, getFieldOffset and getFieldNameByIndex: the index by which JVMTI names a
-- field counts the fields of all interfaces first, then those of the superclasses, then the class's.
pub mod Jvm
mod Defs
mod Tests
pub mod Layout
pub mod Offset
pub mod Name
pub mod Declared
pub mod Total
pub mod RoundTrip
unfoldable pub use Defs.{
  find_interface_in_list, interfaces_loop, remove_implemented_interfaces_from_index, find_field,
  get_field_offset_internal, get_field_offset, get_field_name_by_index_internal,
  get_field_name_by_index,
}
