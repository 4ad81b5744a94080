-- ===== src/Corpus/Workload.antt =====
-- The constants that harness/build.rs generates from workload/workload.toml. `F` is `f64`.
use spate_benchmark.Prelude.{ℕ, List, Text}

pub record Workload (F : Type 0) : Type 0 where
  pub events_per_batch : ℕ
  pub sensors : ℕ
  pub names : ℕ
  pub tags : ℕ
  pub units : List Text
  pub drop_unit : Text
  pub quality_floor : F
  pub base_ts_ms : ℕ
