-- ===== src/Detect/Classes.antt =====
-- src/cpp/leak_detect.c, fillClassIgnoreList, tagAllClasses and untagAllClasses: each loaded class
-- gets a memory node, which takes the limits that the configuration gives for fields of the class.
pub mod Defs
pub mod Loop
mod Round
pub mod Tagged
pub mod Owned
mod Tests
