-- ===== src/Bitmask.antt =====
-- src/cpp/bitmask_set.c: sets of small numbers as the bits of a byte buffer.
-- `bytes` is the buffer behind `ptr`; `size` is one above the largest number that the set can hold.
-- Numbers and sizes are never negative where the agent calls these functions, so both are naturals.
-- A pointer that walks the buffer is the rest of the list, and a loop that came to its end would stop.
mod Defs
pub mod Bounds
pub mod Confined
mod Tests
pub mod Members
pub mod Union
pub mod Inclusion
pub use Defs.{BitmaskSet, lesser}
unfoldable pub use Defs.{
  size_in_bytes, mask, new, add, remove, contains, or_bytes, add_all, or_bytes_excluding,
  add_all_with_exclusion, includes_bytes, contains_all, zero_bytes, is_empty, raw_bit,
}
