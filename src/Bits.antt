-- ===== src/Bits.antt =====
-- The bits of a machine byte, and what `|`, `&`, `~` and `1 << k` do to each of them.
mod Digits
mod Test
mod Byte
unfoldable pub use Test.{test_bit}
pub use Test.{test_bit-bit_or, test_bit-bit_and}
pub use Byte.*
