-- ===== src/Corpus/Gates/Examples.antt =====
-- A run of the gates.
use spate_benchmark.Prelude.{true, false, some, [], ◌∷◌, ◌≡◌, refl}
use spate_benchmark.Corpus.Gates.{
  Gates, region_differs, send_ts_differs, failure, failure_of, passed, why, unless,
}

abbrev two_wrong : Gates
two_wrong = record {
  min_batch = 0;
  max_batch = 9;
  rows = 700;
  distinct_ids = 700;
  distinct_batches = 10;
  duplicates = 0;
  contiguous = true;
  rows_match = true;
  value_sum_match = true;
  value_scaled_match = true;
  sensor_match = true;
  region_match = false;
  name_match = true;
  unit_match = true;
  tag_count_match = true;
  tag_match = true;
  batch_ts_match = true;
  null_quality_match = true;
  send_ts_after_base = false;
}

two_reasons : failure two_wrong ≡ some (region_differs ∷ send_ts_differs ∷ [])
unfolding failure failure_of passed why unless
two_reasons = refl
