-- ===== src/Agent.antt =====
-- src/cpp/jleaker.c: attaching the agent, the callbacks of the virtual machine, and the thread that
-- makes a dump, interleaved in any order.
mod Defs
mod System
mod Places
mod Attach
pub mod Exclusion
pub mod Serial
pub mod Progress
pub mod SelfCheck
mod Tests
pub use Defs.*
pub use System.*
