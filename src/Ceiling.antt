-- ===== src/Ceiling.antt =====
-- harness/src/ceiling.rs: what the broker and ClickHouse can absorb, and the gate against it.
pub mod Float
pub mod Format
pub mod Sweep
pub mod Partitions
pub mod Encoding
pub mod File
pub mod Gate
