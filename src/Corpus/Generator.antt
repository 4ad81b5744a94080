-- ===== src/Corpus/Generator.antt =====
-- The generator of harness/src/corpus.rs: every column as a function of `batch_id` and `seq`.
-- Arithmetic on `u64` and `i64` wraps, as in the release build that runs. Batch ids are below 2^63,
-- so the conversions to `i64` do not panic.
use spate_benchmark.Prelude.{
  ℕ, zero, suc, ◌+◌, ◌-◌, ◌*◌, ◌/◌, ◌%◌, ◌^◌, Bool, false, not, Option, none, some, List, [], ◌∷◌,
  ◌++◌, map, Text, codes, ◌==◌, leb, ◌&&◌, if◌then◌else◌, text_eq, get_elem?,
}
use spate_benchmark.Prelude.Int.{ℤ, pos, add_i64, mul_i64, div_i64}
use spate_benchmark.Ceiling.Float.{Float}
use spate_benchmark.Corpus.Decimal.{decimal}
use spate_benchmark.Corpus.Workload.{Workload}

abbrev pub u64 : ℕ → ℕ
u64 n = n % 2 ^ 64

-- `str::to_ascii_uppercase` folds exactly a-z.
upper_byte : ℕ → ℕ
upper_byte c = if leb b'a' c && leb c b'z' then c - 32 else c

unfoldable pub ascii_upper : Text → Text
unfolding upper_byte
ascii_upper s = map upper_byte s

unfoldable pub value_scaled_of : ℤ → ℕ → ℤ
value_scaled_of value seq = div_i64 (mul_i64 value 1000) (seq + 1)

pub value_of : ℕ → ℕ → ℤ
value_of batch_id seq = pos (u64 (u64 (batch_id * 1000003) + u64 (seq * 97)) % 2147483647)

module _ (fl : Float) (w : Workload fl.F) where
  pub sensor_of : ℕ → Text
  sensor_of batch_id = codes "sensor-" ++ decimal (batch_id % w.sensors)

  unfoldable pub region_of : ℕ → Option Text
  region_of batch_id =
      if batch_id % 10 == 0 then none else some (codes "region-" ++ decimal (batch_id % 7))

  pub batch_ts_ms_of : ℕ → ℤ
  unfolding add_i64
  batch_ts_ms_of batch_id = add_i64 w.base_ts_ms batch_id

  pub name_of : ℕ → ℕ → Text
  name_of batch_id seq = codes "metric_" ++ decimal (u64 (u64 (batch_id * 31) + seq) % w.names)

  -- `UNITS[…]`; the generated array holds eight units, so the index is in range.
  pub unit_of : ℕ → ℕ → Text
  unit_of batch_id seq = elim (get_elem? w.units (u64 (u64 (batch_id * 7) + seq) % 8)) [
    | none ↦ []
    | some u ↦ u
  ]

  unfoldable pub quality_of : ℕ → ℕ → Option fl.F
  quality_of batch_id seq =
      if u64 (batch_id + seq) % 5 == 0
      then none
      else some
          (fl.div (fl.of_u64 (u64 (u64 (batch_id * 13) + u64 (seq * 7)) % 100)) (fl.decimal 100 1))

  -- The tags of the indices from `j` on; `count` are left.
  tags_from : ℕ → ℕ → ℕ → List Text
  tags_from start j zero = []
  tags_from start j (suc count) =
      (codes "tag-" ++ decimal (u64 (start + j) % w.tags)) ∷ tags_from start (j + 1) count

  pub tags_of : ℕ → ℕ → List Text
  unfolding tags_from
  tags_of batch_id seq = tags_from (u64 (batch_id + seq)) 0 (u64 (batch_id + seq) % 4)

  abbrev pub below : fl.F → Option fl.F → Bool
  below floor none = false
  below floor (some q) = fl.lt q floor

  unfoldable pub keeps : ℕ → ℕ → Bool
  keeps batch_id seq =
      if text_eq (unit_of batch_id seq) w.drop_unit
      then false
      else not (below w.quality_floor (quality_of batch_id seq))

-- `(n * 1_000_000) / rate`, which panics at a rate of 0.
pub sustained_due_us : ℕ → ℕ → Option ℕ
sustained_due_us n rate = if rate == 0 then none else some (u64 (n * 1000000) / rate)
