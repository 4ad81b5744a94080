-- ===== src/Ceiling/File.antt =====
-- `Ceilings` of harness/src/ceiling.rs: the committed file of one environment, and what a pass merges
-- into it. `F` is the type of the floats.
pub mod Merged
use spate_benchmark.Prelude.{
  ℕ, Bool, true, false, not, Option, none, some, List, [], ◌∷◌, ◌++◌, ◌&&◌, Text, codes, text_eq,
  if◌then◌else◌, ltb, ◌==◌,
}
use spate_benchmark.Prelude.Int.{ℤ}
use spate_benchmark.Ceiling.Sweep.{SweepPoint}

pub record Provenance : Type 0 where
  pub date : Text
  pub dataset_version : Text
  pub infra_digest : Text
  pub host : Text
  pub rig : Text

pub data Location : Type 0 where
  inside : Location
  outside : Location

unfoldable pub location_named : Text → Option Location
location_named name =
    if text_eq name (codes "inside")
    then some inside
    else if text_eq name (codes "outside")
    then some outside
    else none

pub record Cgroup (F : Type 0) : Type 0 where
  pub cores : F
  pub cap_cores : F
  pub user_share : F
  pub nr_throttled : ℕ
  pub throttled_us : ℕ

pub record ConsumeWindow (F : Type 0) : Type 0 where
  pub requested_s : F
  pub actual_s : F
  pub messages_read : ℕ
  pub topic_depth : ℕ
  pub calibrated_msgs_per_s : ℕ

pub record Landed : Type 0 where
  pub posted : ℕ
  pub counted : Option ℕ

pub record PartLog : Type 0 where
  pub parts_written : ℕ
  pub rows_written : ℕ
  pub merges : ℕ
  pub rows_merged : ℕ

pub record NetworkWait (F : Type 0) : Type 0 where
  pub inserts : ℕ
  pub duration_ms : F
  pub waiting_ms : F

pub record Settle (F : Type 0) : Type 0 where
  pub max_wait_s : F
  pub at_concurrency : ℕ
  pub quiet_ms : ℕ

pub data RefusedBy : Type 0 where
  target : RefusedBy
  by_rig : RefusedBy

pub record Refusal : Type 0 where
  pub concurrency : ℕ
  pub refused_by : RefusedBy
  pub error : Text

pub record ConsumeCeiling (F : Type 0) : Type 0 where
  pub msgs_per_s : ℕ
  pub mb_per_s : F
  pub message_bytes : ℕ
  pub partitions : ℤ
  pub broker : Text
  pub threads : ℕ
  pub client : Text
  pub window : Option (ConsumeWindow F)
  pub broker_cgroup : Option (Cgroup F)
  pub provenance : Provenance

pub record IngestCeiling (F : Type 0) : Type 0 where
  pub format : Text
  pub rows_per_s : ℕ
  pub mb_per_s : F
  pub row_bytes : ℕ
  pub threads : ℕ
  pub clickhouse : Text
  pub client : Text
  pub sweep : List SweepPoint
  pub target_cgroup : Option (Cgroup F)
  pub landed : Option Landed
  pub parts : Option PartLog
  pub network : Option (NetworkWait F)
  pub settle : Option (Settle F)
  pub stopped_at : Option Refusal
  pub provenance : Provenance

pub record Ceilings (F : Type 0) : Type 0 where
  pub consume : Option (ConsumeCeiling F)
  pub clickhouse : List (IngestCeiling F)

pub record Pass (F : Type 0) : Type 0 where
  pub consume : ConsumeCeiling F
  pub ingest : List (IngestCeiling F)

-- `a.cmp(&b)` is not `Greater`, on strings.
pub text_le : Text → Text → Bool
text_le [] b = true
text_le (x ∷ a) [] = false
text_le (x ∷ a) (y ∷ b) =
    let rest = text_le a b in if ltb x y then true else if x == y then rest else false

pub data Stale : Type 0 where
  stale_consume : Text → Stale
  stale_ingest : Text → Text → Stale

module _ {F : Type 0} where
  -- One round of the loop: the entry of the measured format is replaced, or a new one is pushed.
  pub put : List (IngestCeiling F) → IngestCeiling F → List (IngestCeiling F)
  put [] measured = measured ∷ []
  put (c ∷ cs) measured =
      let rest = put cs measured in
      if text_eq c.format measured.format then measured ∷ cs else c ∷ rest

  pub put_all : List (IngestCeiling F) → List (IngestCeiling F) → List (IngestCeiling F)
  put_all cs [] = cs
  put_all cs (m ∷ ms) = put_all (put cs m) ms

  -- The stable `sort_by` of the language, on the formats.
  pub insert : IngestCeiling F → List (IngestCeiling F) → List (IngestCeiling F)
  insert c [] = c ∷ []
  insert c (d ∷ ds) =
      let rest = insert c ds in if text_le c.format d.format then c ∷ d ∷ ds else d ∷ rest

  pub sort : List (IngestCeiling F) → List (IngestCeiling F)
  sort [] = []
  sort (c ∷ cs) = insert c (sort cs)

  pub merge : Ceilings F → Pass F → Ceilings F
  merge cs pass = record {
    consume = some pass.consume;
    clickhouse = sort (put_all cs.clickhouse pass.ingest);
  }

  stale_ingests : Text → List (IngestCeiling F) → List Stale
  stale_ingests infra_digest [] = []
  stale_ingests infra_digest (c ∷ cs) =
      let rest = stale_ingests infra_digest cs in
      if text_eq c.provenance.infra_digest infra_digest
      then rest
      else stale_ingest c.format c.provenance.infra_digest ∷ rest

  stale_consumes : Text → Option (ConsumeCeiling F) → List Stale
  stale_consumes infra_digest none = []
  stale_consumes infra_digest (some c) =
      if text_eq c.provenance.infra_digest infra_digest
      then []
      else stale_consume c.provenance.infra_digest ∷ []

  pub measured_under_other_envelopes : Ceilings F → Text → List Stale
  unfolding stale_ingests stale_consumes
  measured_under_other_envelopes cs infra_digest =
      stale_consumes infra_digest cs.consume ++ stale_ingests infra_digest cs.clickhouse
