-- ===== src/Corpus/Avro.antt =====
-- The `apache_avro` values that the corpus builds and the arms take apart, and what `encode_batch`
-- hands to the encoder. `F` is `f64`.
use spate_benchmark.Prelude.{ℕ, zero, suc, ◌+◌, Option, none, some, List, [], ◌∷◌, Text, codes}
use spate_benchmark.Prelude.Int.{ℤ, pos}
use spate_benchmark.Ceiling.Float.{Float}
use spate_benchmark.Corpus.Workload.{Workload}
use spate_benchmark.Corpus.Generator.{
  sensor_of, region_of, batch_ts_ms_of, name_of, unit_of, value_of, quality_of, tags_of,
}

mutual
  pub data AvroValue (F : Type 0) : Type 0 where
    null : AvroValue F
    int : ℤ → AvroValue F
    long : ℤ → AvroValue F
    double : F → AvroValue F
    string : Text → AvroValue F
    union : ℕ → AvroValue F → AvroValue F
    array : Items F → AvroValue F
    object : Fields F → AvroValue F  -- `AvroValue::Record`

  pub data Items (F : Type 0) : Type 0 where
    nil : Items F
    cons : AvroValue F → Items F → Items F

  pub data Fields (F : Type 0) : Type 0 where
    end : Fields F
    field : Text → AvroValue F → Fields F → Fields F

abbrev pub strings : {F : Type 0} → List Text → Items F
strings [] = nil
strings (s ∷ ss) = cons (string s) (strings ss)

module _ {F : Type 0} where
  abbrev pub nullable : Option (AvroValue F) → AvroValue F
  nullable none = union 0 null
  nullable (some v) = union 1 v

  abbrev pub as_string : Option Text → Option (AvroValue F)
  as_string none = none
  as_string (some s) = some (string s)

  abbrev pub as_double : Option F → Option (AvroValue F)
  as_double none = none
  as_double (some q) = some (double q)

module _ (fl : Float) (w : Workload fl.F) where
  unfoldable pub event_value : ℕ → ℕ → AvroValue fl.F
  event_value batch_id seq = object (
      field (codes "seq") (int (pos seq)) (
        field (codes "name") (string (name_of fl w batch_id seq)) (
          field (codes "unit") (string (unit_of fl w batch_id seq)) (
            field (codes "value") (long (value_of batch_id seq)) (
              field (codes "quality") (nullable (as_double (quality_of fl w batch_id seq)))
                (field (codes "tags") (array (strings (tags_of fl w batch_id seq))) end))))))

  -- The events from `seq` on; `count` are left.
  unfoldable pub event_values : ℕ → ℕ → ℕ → Items fl.F
  event_values batch_id seq zero = nil
  event_values batch_id seq (suc count) =
      cons (event_value batch_id seq) (event_values batch_id (seq + 1) count)

  unfoldable pub batch_value : ℕ → ℤ → AvroValue fl.F
  batch_value batch_id send_ts_us = object (
      field (codes "batch_id") (long (pos batch_id)) (
        field (codes "sensor") (string (sensor_of fl w batch_id)) (
          field (codes "region") (nullable (as_string (region_of fl w batch_id))) (
            field (codes "batch_ts_ms") (long (batch_ts_ms_of fl w batch_id)) (
              field (codes "send_ts_us") (long send_ts_us) (
                field (codes "events") (array (event_values batch_id 0 w.events_per_batch))
                  end))))))
