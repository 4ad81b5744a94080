-- ===== src/Scaled.antt =====
-- Whole thousandths in place of floats, and the workload of workload/workload.toml over them, for runs
-- on concrete inputs.
use spate_benchmark.Prelude.{ℕ, ◌+◌, ◌-◌, ◌*◌, ◌/◌, [], ◌∷◌, codes, ltb, leb}
use spate_benchmark.Ceiling.Float.{Float}
use spate_benchmark.Corpus.Workload.{Workload}

-- Whole thousandths.
abbrev pub thousandths : Float
thousandths = record {
  F = ℕ;
  of_u64 = λ n. n * 1000;
  add = ◌+◌;
  sub = ◌-◌;
  mul = λ a b. a * b / 1000;
  div = λ a b. a * 1000 / b;
  lt = ltb;
  le = leb;
  decimal = λ n d. n * 1000 / d;
  to_u64 = λ a. (a + 500) / 1000;
  total_le = leb;
}

abbrev pub committed : Workload ℕ
committed = record {
  events_per_batch = 100;
  sensors = 1024;
  names = 32;
  tags = 16;
  units =
      codes "count"
      ∷ codes "bytes"
      ∷ codes "ms"
      ∷ codes "drop"
      ∷ codes "ratio"
      ∷ codes "celsius"
      ∷ codes "volts"
      ∷ codes "rpm"
      ∷ [];
  drop_unit = codes "drop";
  quality_floor = 200;
  base_ts_ms = 1772000000000;
}
