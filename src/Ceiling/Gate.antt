-- ===== src/Ceiling/Gate.antt =====
-- `Ceilings::gate` and `Ceiling::headroom` of harness/src/ceiling.rs: what an arm may be held to, and
-- what it is held to. A refusal is the data that its sentence shows.
pub mod Usable
pub mod Applied
pub mod Proven
pub mod Bound
mod Examples
use spate_benchmark.Prelude.{
  ℕ, Bool, true, false, not, Option, none, some, List, [], ◌∷◌, ◌++◌, ◌&&◌, ◌||◌, Text, codes,
  text_eq, if◌then◌else◌, ltb, ◌==◌, is_empty, find,
}
use spate_benchmark.Ceiling.Float.{Float}
use spate_benchmark.Ceiling.File.{
  ConsumeCeiling, IngestCeiling, Ceilings, Location, inside, location_named,
}

pub data Reason (F : Type 0) : Type 0 where
  no_consume : Reason F
  size_differs : ℕ → ℕ → F → F → Reason F
  wrong_side_consume : Text → Reason F
  no_envelope : Text → Reason F
  other_envelope : Text → Text → Reason F
  ingest_envelope : Text → Text → Text → Reason F
  wrong_side_ingest : Text → Text → Reason F
  server_side_work : Text → Reason F
  no_ingest : Text → Reason F

pub record GateableIngest : Type 0 where
  pub format : Text
  pub rows_per_s : ℕ

pub record Ceiling (F : Type 0) : Type 0 where
  pub consume_msgs_per_s : ℕ
  pub consume_bytes_per_s : ℕ
  pub corpus_message_bytes : ℕ
  pub ingest : List GateableIngest
  pub refusals : List (Reason F)

-- What the branch on the consume ceiling changes: `usable`, and the refusals it pushes.
pub record Check (F : Type 0) : Type 0 where
  pub usable : Bool
  pub refusals : List (Reason F)

pub record Consume (F : Type 0) : Type 0 where
  pub msgs_per_s : ℕ
  pub bytes_per_s : ℕ
  pub refusals : List (Reason F)

pub record Ingest (F : Type 0) : Type 0 where
  pub ingest : List GateableIngest
  pub refusals : List (Reason F)

is_inside_of : Option Location → Bool
is_inside_of (some inside) = true
is_inside_of _ = false

-- `location_named(client) == Some(Location::Inside)`
pub is_inside : Text → Bool
unfolding is_inside_of
is_inside client = is_inside_of (location_named client)

-- `usable = false; refusals.push(reason)` under a test.
pub refuse : {F : Type 0} → Bool → Reason F → Check F → Check F
refuse true reason k = record { usable = false; refusals = k.refusals ++ reason ∷ [] }
refuse false reason k = k

pub data Against : Type 0 where
  broker_consume : Against
  click_house_ingest : Against

pub record Share (F : Type 0) : Type 0 where
  pub kind : Against
  pub share : F
  pub ceiling : ℕ

pub record Headroom (F : Type 0) : Type 0 where
  pub shares : List (Share F)
  pub unproven : List (Reason F)

pub record Achieved (F : Type 0) : Type 0 where
  pub msgs_per_s : F
  pub rows_per_s : F
  pub wire_format : Text
  pub server_side_transform : Bool

module _ (fl : Float) where
  open fl use {F, of_u64, add, sub, mul, div, lt, le, decimal, to_u64, total_le}

  pub size_differs_materially : ℕ → ℕ → Bool
  size_differs_materially measured current =
      if measured == 0 || current == 0
      then true
      else not (
          le (sub (decimal 1 1) (decimal 5 100)) (div (of_u64 measured) (of_u64 current))
          && le (div (of_u64 measured) (of_u64 current)) (add (decimal 1 1) (decimal 5 100)))

  pub size_ratio : ℕ → ℕ → F
  size_ratio a b =
      if le (of_u64 a) (decimal 0 1) || le (of_u64 b) (decimal 0 1)
      then decimal 0 1
      else if lt (of_u64 b) (of_u64 a)
      then div (of_u64 a) (of_u64 b)
      else div (of_u64 b) (of_u64 a)

  pub mb_to_bytes : F → ℕ
  mb_to_bytes mb_per_s = to_u64 (mul mb_per_s (decimal 1000000 1))

  pub check_consume : ConsumeCeiling F → ℕ → Text → Check F
  check_consume c corpus digest =
      let recorded = c.provenance.infra_digest in
      refuse (not (is_empty recorded) && not (text_eq recorded digest))
        (other_envelope recorded digest)
        (refuse (is_empty recorded) (no_envelope digest) (
          refuse (not (is_inside c.client)) (wrong_side_consume c.client) (
            refuse (size_differs_materially c.message_bytes corpus)
              (size_differs c.message_bytes corpus (size_ratio corpus c.message_bytes) c.mb_per_s)
              (record { usable = true; refusals = [] }))))

  pub gate_consume : Option (ConsumeCeiling F) → ℕ → Text → Consume F
  gate_consume none corpus digest = record {
    msgs_per_s = 0;
    bytes_per_s = 0;
    refusals = no_consume ∷ [];
  }
  gate_consume (some c) corpus digest =
      let k = check_consume c corpus digest in
      record {
        msgs_per_s = if k.usable then c.msgs_per_s else 0;
        bytes_per_s = if k.usable then mb_to_bytes c.mb_per_s else 0;
        refusals = k.refusals;
      }

  pub gate_ingest : Text → List (IngestCeiling F) → Ingest F
  gate_ingest digest [] = record { ingest = []; refusals = [] }
  gate_ingest digest (c ∷ cs) =
      let rest = gate_ingest digest cs in
      let recorded = c.provenance.infra_digest in
      if is_empty recorded || not (text_eq recorded digest)
      then record {
        ingest = rest.ingest;
        refusals = ingest_envelope c.format recorded digest ∷ rest.refusals;
      }
      else if not (is_inside c.client)
      then record {
        ingest = rest.ingest;
        refusals = wrong_side_ingest c.format c.client ∷ rest.refusals;
      }
      else record {
        ingest = record { format = c.format; rows_per_s = c.rows_per_s } ∷ rest.ingest;
        refusals = rest.refusals;
      }

  pub gate : Ceilings F → ℕ → Text → Ceiling F
  gate cs corpus digest =
      let consume = gate_consume cs.consume corpus digest in
      let ingest = gate_ingest digest cs.clickhouse in
      record {
        consume_msgs_per_s = consume.msgs_per_s;
        consume_bytes_per_s = consume.bytes_per_s;
        corpus_message_bytes = corpus;
        ingest = ingest.ingest;
        refusals = consume.refusals ++ ingest.refusals;
      }

  -- `a.max(b)` of `f64`, where neither is a NaN.
  max_f64 : F → F → F
  max_f64 a b = if lt a b then b else a

  pub consume_share : Ceiling F → Achieved F → List (Share F)
  unfolding max_f64
  consume_share g arm =
      let by_msgs = div arm.msgs_per_s (of_u64 g.consume_msgs_per_s) in
      let by_bytes =
        div (mul arm.msgs_per_s (of_u64 g.corpus_message_bytes)) (of_u64 g.consume_bytes_per_s) in
      if ltb 0 g.consume_msgs_per_s && ltb 0 g.consume_bytes_per_s
      then record {
        kind = broker_consume;
        share = max_f64 by_msgs by_bytes;
        ceiling = g.consume_msgs_per_s;
      }
        ∷ []
      else []

  pub ingest_headroom : Achieved F → Option GateableIngest → Headroom F
  ingest_headroom arm none = record { shares = []; unproven = no_ingest arm.wire_format ∷ [] }
  ingest_headroom arm (some c) =
      if ltb 0 c.rows_per_s
      then record {
        shares =
            record {
              kind = click_house_ingest;
              share = div arm.rows_per_s (of_u64 c.rows_per_s);
              ceiling = c.rows_per_s;
            }
            ∷ [];
        unproven = [];
      }
      else record { shares = []; unproven = no_ingest arm.wire_format ∷ [] }

  -- The branch on `arm.server_side_transform`.
  pub transformed_headroom : Bool → Ceiling F → Achieved F → Headroom F
  transformed_headroom true g arm = record {
    shares = [];
    unproven = server_side_work arm.wire_format ∷ [];
  }
  transformed_headroom false g arm =
      ingest_headroom arm (find (λ c. text_eq c.format arm.wire_format) g.ingest)

  pub headroom : Ceiling F → Achieved F → Headroom F
  headroom g arm =
      let ingest = transformed_headroom arm.server_side_transform g arm in
      record {
        shares = consume_share g arm ++ ingest.shares;
        unproven = g.refusals ++ ingest.unproven;
      }

  is_ingest : Share F → Bool
  is_ingest s = elim s.kind [ broker_consume ↦ false | click_house_ingest ↦ true ]

  ceiling_of : Option (Share F) → Option ℕ
  ceiling_of none = none
  ceiling_of (some s) = some s.ceiling

  pub applied_ingest_rows_per_s : Headroom F → Option ℕ
  unfolding is_ingest ceiling_of
  applied_ingest_rows_per_s h = ceiling_of (find is_ingest h.shares)

  pub is_proven : Headroom F → Bool
  is_proven h = is_empty h.unproven

  -- `max_by`, which keeps the later of two that compare as equal.
  pub max_share : Share F → List (Share F) → Share F
  max_share s [] = s
  max_share s (t ∷ ts) = max_share (if total_le s.share t.share then t else s) ts

  pub max_of : List (Share F) → Option (Share F)
  max_of [] = none
  max_of (s ∷ ss) = some (max_share s ss)

  pub binding : Headroom F → Option (Share F)
  binding h = max_of h.shares

  -- `s.share > HEADROOM_LIMIT`, the limit being 0.70
  pub exceeds : Share F → Bool
  exceeds s = lt (decimal 70 100) s.share

  -- `is_some_and`
  pub bound_by : Option (Share F) → Bool
  bound_by none = false
  bound_by (some s) = exceeds s

  pub infra_bound : Headroom F → Bool
  infra_bound h = bound_by (binding h)
