-- ===== src/Corpus.antt =====
-- harness/src/corpus.rs: the deterministic data, its closed-form expectations, and the gates.
pub mod Decimal
pub mod Workload
pub mod Generator
pub mod Avro
pub mod Expected
pub mod Gates
pub mod Sql
