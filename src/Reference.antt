-- ===== src/Reference.antt =====
-- src/cpp/jvm_reference.c: what the agent says of a reference between two Java objects.
pub mod Kind
pub mod Fields
pub mod Chain
pub mod Printing
