-- ===== src/Entrant.antt =====
-- harness/src/entrant.rs: descriptors, their parts, and the gates a descriptor passes.
pub mod Descriptor
pub mod Knobs
pub mod Load
pub mod Memory
pub mod Validate
pub mod Placeholders
