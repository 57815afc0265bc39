-- ===== src/Configuration.antt =====
-- src/cpp/jleaker.c, ini_handler: the entries of a configuration file.
mod Defs
pub mod Entry
mod Tests
pub use Defs.{StrMap, State}
unfoldable pub use Defs.{last_dot, take, drop, add_limit, limit_entry, ini_handler}
