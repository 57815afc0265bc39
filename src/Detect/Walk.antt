-- ===== src/Detect/Walk.antt =====
-- src/cpp/leak_detect.c, cbObjectTagReferrer: JVMTI calls it for each reference of the heap whose
-- referee is tagged, and it records the reference in the graph of memory nodes.
mod Defs
pub mod References
pub mod Leaks
pub mod Repeats
mod Tests
pub use Defs.{Config, Walk, Referrer, Outcome}
unfoldable pub use Defs.{
  is_field_ignored, spread_leaks, append_referer, count_found, count_reference, record_reference,
  resolve_referrer, class_filter, cb_object_tag_referrer,
}
