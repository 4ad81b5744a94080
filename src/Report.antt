-- ===== src/Report.antt =====
-- harness/src/report.rs: the record that a measurement emits. `F` is the type of the floats, `V` that of
-- the JSON values.
use spate_benchmark.Prelude.{ℕ, Bool, true, false, Option, none, some, List, Text, codes}
use spate_benchmark.Prelude.Int.{ℤ}

pub data Kind : Type 0 where
  measurement : Kind
  verdict : Kind

pub data Status : Type 0 where
  ok : Status
  infra_bound : Status
  unsupported : Status
  failed : Status

unfoldable pub carries_metrics : Status → Bool
carries_metrics ok = true
carries_metrics infra_bound = true
carries_metrics _ = false

pub data Trigger : Type 0 where
  nightly : Trigger
  manual : Trigger
  pr : Trigger
  tuning : Trigger
  release : Trigger

unfoldable pub publication_bar : Trigger → Option Text
publication_bar pr = some (codes "pull-request run on unreviewed code, never published")
publication_bar tuning = some (
    codes
      "TUNING RUN: a point in a configuration search, never published — the search belongs in a document with its rejected points, not in results/")
publication_bar _ = none

is_some : Option Text → Bool
is_some none = false
is_some (some bar) = true

unfoldable pub bars_publication : Trigger → Bool
unfolding is_some
bars_publication t = is_some (publication_bar t)

pub data Flag : Type 0 where
  cpu_cap_throttled : Flag
  headroom_unproven : Flag
  saturated : Flag
  third_party_hardware : Flag
  unpublishable_environment : Flag
  reused_infra : Flag

pub record Metric (F : Type 0) : Type 0 where
  pub value : F
  pub unit : Text
  pub higher_is_better : Bool
  pub ci95 : Option (F × F)
  pub n : Option ℕ

pub record Sut : Type 0 where
  pub entrant : Text
  pub variant_id : Text
  pub version : Option Text
  pub commit : Option Text
  pub image_digest : Text
  pub image : Text
  pub toolchain : Option Text

pub record Infra : Type 0 where
  pub digest : Text
  pub broker : Text
  pub broker_version : Text
  pub broker_image_digest : Text
  pub broker_cpus : Text
  pub broker_memory : Text
  pub clickhouse_version : Text
  pub clickhouse_image_digest : Text
  pub clickhouse_cpus : Text
  pub clickhouse_memory : Text
  pub partitions : ℤ
  pub registry : Text
  pub ceiling_msgs_per_s : ℕ
  pub ceiling_bytes_per_s : ℕ
  pub ceiling_rows_per_s : ℕ

pub record RunMeta : Type 0 where
  pub ts_ms : ℕ
  pub invocation_id : Text
  pub env_id : Text
  pub env_digest : Text
  pub harness_version : ℕ
  pub dataset_version : Text
  pub commit : Option Text
  pub trigger : Trigger
  pub infra : Infra

-- The two maps are the lists of their pairs in key order.
pub record Report (F V : Type 0) : Type 0 where
  pub schema : ℕ
  pub bench : Text
  pub kind : Kind
  pub status : Status
  pub run_id : Text
  pub rep : ℕ
  pub reps : ℕ
  pub sut : Sut
  pub run : RunMeta
  pub variant : List (Text × V)
  pub metrics : List (Text × Metric F)
  pub note : Option Text
  pub flags : List Flag
