-- ===== src/Corpus/Expected.antt =====
-- `str_fingerprint`, `Expected` and the loops that compute it in harness/src/corpus.rs. A sum is an
-- `i128`. A term is below 2^65, so for fewer than 2^45 batches of at most 65536 events it is below 2^126,
-- and the sums of integers here are those of the code.
pub mod Ranges
mod Examples
use spate_benchmark.Prelude.{
  ℕ, zero, suc, ◌+◌, ◌-◌, ◌*◌, ◌^◌, Bool, true, false, not, Option, none, some, List, [], ◌∷◌, ◌++◌,
  Text, if◌then◌else◌, length,
}
use spate_benchmark.Prelude.Int.{ℤ, pos, ◌+ℤ◌}
use spate_benchmark.Ceiling.Float.{Float}
use spate_benchmark.Corpus.Workload.{Workload}
use spate_benchmark.Corpus.Generator.{
  sensor_of, region_of, batch_ts_ms_of, name_of, unit_of, value_of, quality_of, tags_of, keeps,
  ascii_upper, value_scaled_of,
}

-- The first `n` bytes as a little-endian number, the missing ones zero.
le_bytes : ℕ → Text → ℕ
le_bytes zero s = 0
le_bytes (suc n) [] = 0
le_bytes (suc n) (c ∷ s) = c + 256 * le_bytes n s

reverse_onto : Text → Text → Text
reverse_onto [] out = out
reverse_onto (c ∷ s) out = reverse_onto s (c ∷ out)

-- The first eight bytes, and the last eight read from the end, as little-endian numbers.
pub str_fingerprint : Text → ℤ
unfolding le_bytes reverse_onto
str_fingerprint s = pos (le_bytes 8 s) +ℤ pos (le_bytes 8 (reverse_onto s []))

-- `tags.concat()`
unfoldable pub concat : List Text → Text
concat [] = []
concat (s ∷ ss) = s ++ concat ss

pub record Expected : Type 0 where
  pub rows : ℕ
  pub value_sum : ℤ
  pub value_scaled_sum : ℤ
  pub sensor_sum : ℤ
  pub region_sum : ℤ
  pub name_sum : ℤ
  pub unit_sum : ℤ
  pub tag_count_sum : ℤ
  pub tag_sum : ℤ
  pub batch_ts_sum : ℤ
  pub null_quality_rows : ℕ

abbrev pub zero_expected : Expected
zero_expected = record {
  rows = 0;
  value_sum = pos 0;
  value_scaled_sum = pos 0;
  sensor_sum = pos 0;
  region_sum = pos 0;
  name_sum = pos 0;
  unit_sum = pos 0;
  tag_count_sum = pos 0;
  tag_sum = pos 0;
  batch_ts_sum = pos 0;
  null_quality_rows = 0;
}

-- `region.as_deref().unwrap_or("")`
abbrev pub unwrap_text : Option Text → Text
unwrap_text none = []
unwrap_text (some s) = s

abbrev pub is_none {ℓ} : {A : Type ℓ} → Option A → Bool
is_none none = true
is_none (some a) = false

module _ (fl : Float) (w : Workload fl.F) where
  -- The body of the inner loop.
  unfoldable pub count_event : ℕ → Expected → ℕ → Expected
  count_event batch_id out seq =
      let value = value_of batch_id seq in
      let tags = tags_of fl w batch_id seq in
      if not (keeps fl w batch_id seq) then out else record {
        rows = out.rows + 1;
        value_sum = out.value_sum +ℤ value;
        value_scaled_sum = out.value_scaled_sum +ℤ value_scaled_of value seq;
        sensor_sum = out.sensor_sum +ℤ str_fingerprint (sensor_of fl w batch_id);
        region_sum = out.region_sum +ℤ str_fingerprint (unwrap_text (region_of fl w batch_id));
        name_sum = out.name_sum +ℤ str_fingerprint (ascii_upper (name_of fl w batch_id seq));
        unit_sum = out.unit_sum +ℤ str_fingerprint (unit_of fl w batch_id seq);
        tag_count_sum = out.tag_count_sum +ℤ pos (length tags);
        tag_sum = out.tag_sum +ℤ str_fingerprint (concat tags);
        batch_ts_sum = out.batch_ts_sum +ℤ batch_ts_ms_of fl w batch_id;
        null_quality_rows =
            if is_none (quality_of fl w batch_id seq)
            then out.null_quality_rows + 1
            else out.null_quality_rows;
      }

  -- The events from `seq` on; `count` are left.
  unfoldable pub count_events : ℕ → Expected → ℕ → ℕ → Expected
  count_events batch_id out seq zero = out
  count_events batch_id out seq (suc count) =
      count_events batch_id (count_event batch_id out seq) (seq + 1) count

  -- The batches from `batch_id` on; `count` are left.
  unfoldable pub count_batches : Expected → ℕ → ℕ → Expected
  count_batches out batch_id zero = out
  count_batches out batch_id (suc count) =
      count_batches (count_events batch_id out 0 w.events_per_batch) (batch_id + 1) count

  unfoldable pub expected_range : ℕ → ℕ → Expected
  unfolding count_batches
  expected_range lo hi = count_batches zero_expected lo (hi - lo)

  unfoldable pub expected : ℕ → Expected
  unfolding expected_range
  expected batches = expected_range 0 batches

  -- `expected_rows`: the same loops, with the one counter.
  rows_in : ℕ → ℕ → ℕ → ℕ → ℕ
  rows_in batch_id rows seq zero = rows
  rows_in batch_id rows seq (suc count) =
      rows_in batch_id (if not (keeps fl w batch_id seq) then rows else rows + 1) (seq + 1) count

  rows_from : ℕ → ℕ → ℕ → ℕ
  rows_from rows batch_id zero = rows
  rows_from rows batch_id (suc count) =
      rows_from (rows_in batch_id rows 0 w.events_per_batch) (batch_id + 1) count

  pub expected_rows : ℕ → ℕ
  unfolding rows_in rows_from
  expected_rows batches = rows_from 0 0 batches
