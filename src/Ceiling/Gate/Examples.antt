-- ===== src/Ceiling/Gate/Examples.antt =====
-- Runs of the gate, with whole thousandths for the floats.
use spate_benchmark.Prelude.{
  ℕ, true, false, none, some, [], ◌∷◌, Text, codes, ◌≡◌, refl, arith, ◌<◌, text_eq,
}
use spate_benchmark.Prelude.Int.{pos}
use spate_benchmark.Scaled.{thousandths}
use spate_benchmark.Ceiling.File.{
  Provenance, ConsumeCeiling, IngestCeiling, Ceilings, Pass, location_named,
}
use spate_benchmark.Ceiling.Gate.{
  Achieved, Headroom, gate, headroom, applied_ingest_rows_per_s, is_proven, check_consume,
  gate_consume, consume_share, size_differs_materially, size_ratio, mb_to_bytes, gate_ingest,
  ingest_headroom, transformed_headroom, is_inside, is_inside_of, refuse, is_ingest, ceiling_of,
  max_f64,
}
use spate_benchmark.Ceiling.Gate.Usable.{IsUsable}
use spate_benchmark.Ceiling.Gate.Applied.{Source, applied-IsSource}
use spate_benchmark.Ceiling.Gate.Proven.{IsHeld, proven-IsUsable}
use spate_benchmark.Ceiling.File.{merge}
use spate_benchmark.Ceiling.File.Merged.{find_format, latest, find_format-merge}
use spate_benchmark.Ceiling.Gate.Bound.{IsOrdered}

abbrev envelope : Text
envelope = codes "e1"

abbrev provenance : Provenance
provenance = record {
  date = codes "2026-01-02";
  dataset_version = codes "3";
  infra_digest = envelope;
  host = [];
  rig = [];
}

abbrev consume : ℕ → ConsumeCeiling ℕ
consume rate = record {
  msgs_per_s = rate;
  mb_per_s = 4000;
  message_bytes = 40;
  partitions = pos 8;
  broker = [];
  threads = 8;
  client = codes "inside";
  window = none;
  broker_cgroup = none;
  provenance = provenance;
}

abbrev ingest : Text → ℕ → IngestCeiling ℕ
ingest format rate = record {
  format = format;
  rows_per_s = rate;
  mb_per_s = 3000;
  row_bytes = 30;
  threads = 8;
  clickhouse = [];
  client = codes "inside";
  sweep = [];
  target_cgroup = none;
  landed = none;
  parts = none;
  network = none;
  settle = none;
  stopped_at = none;
  provenance = provenance;
}

abbrev file : Ceilings ℕ
file = record {
  consume = some (consume 100);
  clickhouse = ingest (codes "native") 900 ∷ ingest (codes "rowbinary") 700 ∷ [];
}

abbrev arm : Achieved ℕ
arm = record {
  msgs_per_s = 50000;
  rows_per_s = 600000;
  wire_format = codes "rowbinary";
  server_side_transform = false;
}

abbrev checked : Headroom ℕ
checked = headroom thousandths (gate thousandths file 40 envelope) arm

file_applied : applied_ingest_rows_per_s thousandths checked ≡ some 700
unfolding headroom gate gate_consume gate_ingest check_consume consume_share ingest_headroom
    transformed_headroom is_inside is_inside_of location_named refuse applied_ingest_rows_per_s
    is_ingest ceiling_of is_proven max_f64 size_differs_materially size_ratio mb_to_bytes text_eq
file_applied = refl

file_proven : is_proven thousandths checked ≡ true
unfolding headroom gate gate_consume gate_ingest check_consume consume_share ingest_headroom
    transformed_headroom is_inside is_inside_of location_named refuse applied_ingest_rows_per_s
    is_ingest ceiling_of is_proven max_f64 size_differs_materially size_ratio mb_to_bytes text_eq
file_proven = refl

applied-IsSource_example :
    (arm.server_side_transform ≡ false)
    × Source thousandths 40 envelope arm.wire_format 700 file.clickhouse
applied-IsSource_example = applied-IsSource thousandths 40 envelope file arm 700 file_applied

some_bytes : 0 < mb_to_bytes thousandths (consume 100).mb_per_s
unfolding mb_to_bytes
some_bytes = omega arith

proven-IsUsable_example :
    IsUsable thousandths 40 envelope (consume 100)
    × IsHeld thousandths 40 envelope 100 checked.shares
    × ((r : ℕ) × (0 < r)
        × (applied_ingest_rows_per_s thousandths checked ≡ some r)
        × Source thousandths 40 envelope arm.wire_format r file.clickhouse)
proven-IsUsable_example =
    proven-IsUsable thousandths 40 envelope (consume 100) file.clickhouse arm (omega arith)
      some_bytes file_proven

idle_usable : (check_consume thousandths (consume 0) 40 envelope).usable ≡ true
unfolding check_consume is_inside is_inside_of location_named refuse size_differs_materially
    size_ratio text_eq
idle_usable = refl

thousandths-IsOrdered : IsOrdered thousandths (λ n. Unit)
thousandths-IsOrdered = record {
  total = λ a b _ _ h. ground arith;
  above = λ l a b _ _ le h. ground arith;
}

abbrev pass : Pass ℕ
pass = record { consume = consume 120; ingest = ingest (codes "json") 300 ∷ [] }

find_format-merge_example :
    find_format (codes "json") (merge file pass).clickhouse
    ≡ latest
        (codes "json")
        (ingest (codes "json") 300 ∷ [])
        (find_format (codes "json") file.clickhouse)
find_format-merge_example = find_format-merge (codes "json") file pass
