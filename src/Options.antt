-- ===== src/Options.antt =====
-- src/cpp/jleaker.c: the options that the agent is attached with.
mod Scan
mod Defs
pub mod Tokens
pub mod Numbers
pub mod Total
pub mod RoundTrip
mod Tests
pub use Defs.{Settings, Parsed}
unfoldable pub use Scan.{strtok, strtol, to_int}
unfoldable pub use Defs.{
  default_settings, number_option, flag_option, parse_number, parse_option, parse_options,
  parse_agent_options,
}
