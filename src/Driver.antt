-- ===== src/Driver.antt =====
-- harness/src/driver.rs: the decisions of a run that need no container.
pub mod Quiesce
pub mod Windows
pub mod Hold
pub mod Overrides
pub mod Specs
pub mod Substitute
