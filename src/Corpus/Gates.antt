-- ===== src/Corpus/Gates.antt =====
-- `Gates` of harness/src/corpus.rs: what the correctness gates found, and why an arm may not be
-- published. A reason is the data that its sentence shows.
pub mod Failure
mod Examples
use spate_benchmark.Prelude.{ℕ, Bool, true, false, Option, none, some, List, [], ◌∷◌, ◌++◌, ◌&&◌}

pub record Gates : Type 0 where
  pub min_batch : ℕ
  pub max_batch : ℕ
  pub rows : ℕ
  pub distinct_ids : ℕ
  pub distinct_batches : ℕ
  pub duplicates : ℕ
  pub contiguous : Bool
  pub rows_match : Bool
  pub value_sum_match : Bool
  pub value_scaled_match : Bool
  pub sensor_match : Bool
  pub region_match : Bool
  pub name_match : Bool
  pub unit_match : Bool
  pub tag_count_match : Bool
  pub tag_match : Bool
  pub batch_ts_match : Bool
  pub null_quality_match : Bool
  pub send_ts_after_base : Bool

pub data Reason : Type 0 where
  not_contiguous : ℕ → ℕ → ℕ → Reason
  row_count : ℕ → Reason
  value_sum : Reason
  scaled_sum : Reason
  sensor_differs : Reason
  region_differs : Reason
  name_upper_differs : Reason
  unit_differs : Reason
  tag_count_differs : Reason
  tag_elements_differs : Reason
  batch_ts_differs : Reason
  null_quality_differs : Reason
  send_ts_differs : Reason

pub passed : Gates → Bool
passed g =
    g.contiguous
    && (g.rows_match
        && (g.value_sum_match
            && (g.value_scaled_match
                && (g.sensor_match
                    && (g.region_match
                        && (g.name_match
                            && (g.unit_match
                                && (g.tag_count_match
                                    && (g.tag_match
                                        && (g.batch_ts_match
                                            && (g.null_quality_match
                                                && g.send_ts_after_base)))))))))))

-- `if !check { why.push(reason) }`, before what is pushed later.
pub unless : Bool → Reason → List Reason → List Reason
unless true reason later = later
unless false reason later = reason ∷ later

pub why : Gates → List Reason
why g = unless g.contiguous (not_contiguous g.distinct_batches g.min_batch g.max_batch) (
    unless g.rows_match (row_count g.rows) (
      unless g.value_sum_match value_sum (
        unless g.value_scaled_match scaled_sum (
          unless g.sensor_match sensor_differs (
            unless g.region_match region_differs (
              unless g.name_match name_upper_differs (
                unless g.unit_match unit_differs (
                  unless g.tag_count_match tag_count_differs (
                    unless g.tag_match tag_elements_differs (
                      unless g.batch_ts_match batch_ts_differs (
                        unless g.null_quality_match null_quality_differs
                          (unless g.send_ts_after_base send_ts_differs []))))))))))))

failure_of : Bool → List Reason → Option (List Reason)
failure_of true reasons = none
failure_of false reasons = some reasons

pub failure : Gates → Option (List Reason)
unfolding failure_of
failure g = failure_of (passed g) (why g)
