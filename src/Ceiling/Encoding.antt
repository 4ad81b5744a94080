-- ===== src/Ceiling/Encoding.antt =====
-- The byte encodings of harness/src/ceiling.rs: varints, strings, and the LowCardinality dictionary.
-- A `u8` is a number below 256 and a `u64` one below 2 ^ 64.
pub mod Varint
pub mod Reader
pub mod LowCardinality
