-- ===== src/Ceiling/Gate/Proven.antt =====
-- When the headroom of an arm counts as proven.
use spate_benchmark.Prelude.{
  ℕ, Bool, true, false, Option, none, some, List, [], ◌++◌, Text, ◌≡◌, refl, arith, ◌<◌, ◌&&◌, ltb,
  is_empty, get_elem?, Bool-cases, inl, inr, ◌∙◌, sym, subst,
}
use spate_benchmark.Ceiling.Float.{Float}
use spate_benchmark.Ceiling.File.{ConsumeCeiling, IngestCeiling, Ceilings}
use spate_benchmark.Ceiling.Gate.{
  GateableIngest, Ceiling, Achieved, check_consume, gate_consume, gate, consume_share,
  ingest_headroom, transformed_headroom, headroom, applied_ingest_rows_per_s, is_proven, is_ingest,
  ceiling_of, mb_to_bytes, Share, broker_consume,
}
use spate_benchmark.Ceiling.Gate.Usable.{
  IsUsable, is_empty-append, check_consume-IsExact, gate_consume-IsUsable, gate_consume_rates,
}
use spate_benchmark.Ceiling.Gate.Applied.{Source, applied-consume_share, applied-IsSource}

module _ (fl : Float) (corpus : ℕ) (digest : Text) where
  ingest_headroom-proven :
      (arm : Achieved fl.F) (o : Option GateableIngest)
      → is_proven fl (ingest_headroom fl arm o) ≡ true
      → (r : ℕ) × (0 < r) × (applied_ingest_rows_per_s fl (ingest_headroom fl arm o) ≡ some r)
  unfolding ingest_headroom is_proven applied_ingest_rows_per_s is_ingest ceiling_of
  ingest_headroom-proven arm none h = cc
  ingest_headroom-proven arm (some g) h = elim (Bool-cases (ltb 0 g.rows_per_s)) [
    | inl positive ↦ (g.rows_per_s, ground arith, rw positive refl)
    | inr zero_rate ↦ let bad : false ≡ true = rw zero_rate at h in cc
  ]

  transformed-proven :
      (b : Bool) (g : Ceiling fl.F) (arm : Achieved fl.F)
      → is_proven fl (transformed_headroom fl b g arm) ≡ true
      → (r : ℕ) × (0 < r)
        × (applied_ingest_rows_per_s fl (transformed_headroom fl b g arm) ≡ some r)
  unfolding transformed_headroom is_proven
  transformed-proven true g arm h = cc
  transformed-proven false g arm h = ingest_headroom-proven arm _ h

  -- That an arm has a share against the broker's ceiling of so many messages per second.
  pub record IsHeld (rate : ℕ) (shares : List (Share fl.F)) : Type 0 where
    pub held : Share fl.F
    pub found : get_elem? shares 0 ≡ some held
    pub against : held.kind ≡ broker_consume
    pub ceiling : held.ceiling ≡ rate

  consume_share-IsHeld :
      (g : Ceiling fl.F) (arm : Achieved fl.F) (more : List (Share fl.F))
      → 0 < g.consume_msgs_per_s
      → 0 < g.consume_bytes_per_s
      → IsHeld g.consume_msgs_per_s (consume_share fl g arm ++ more)
  unfolding consume_share
  consume_share-IsHeld g arm more h k =
      let both : (ltb 0 g.consume_msgs_per_s && ltb 0 g.consume_bytes_per_s) ≡ true =
        ground arith in
      rw both (record { held = _; found = refl; against = refl; ceiling = refl })

  headroom-IsHeld :
      (c : ConsumeCeiling fl.F) (ingest : List (IngestCeiling fl.F)) (arm : Achieved fl.F)
      → 0 < c.msgs_per_s
      → 0 < mb_to_bytes fl c.mb_per_s
      → is_empty (gate_consume fl (some c) corpus digest).refusals ≡ true
      → IsHeld c.msgs_per_s
          (headroom fl
            (gate fl (record { consume = some c; clickhouse = ingest }) corpus digest)
            arm).shares
  unfolding headroom gate
  headroom-IsHeld c ingest arm h k none_of =
      let g = gate fl (record { consume = some c; clickhouse = ingest }) corpus digest in
      let (msgs, bytes) = gate_consume_rates fl corpus digest c none_of in
      subst (λ n. IsHeld n (headroom fl g arm).shares) msgs
        (consume_share-IsHeld g arm _ (subst (λ n. 0 < n) (sym msgs) h)
          (subst (λ n. 0 < n) (sym bytes) k))

  -- An arm whose headroom counts as proven, where the file has a consume ceiling of a positive rate of
  -- messages and of bytes: this ceiling is usable, the arm has a share against it, and the arm is held to
  -- a positive ClickHouse rate, which is that of an entry of the file in the arm's own format, taken
  -- inside the bench network under this environment's envelope.
  pub proven-IsUsable :
      (c : ConsumeCeiling fl.F) (ingest : List (IngestCeiling fl.F)) (arm : Achieved fl.F)
      → 0 < c.msgs_per_s
      → 0 < mb_to_bytes fl c.mb_per_s
      → is_proven fl (
          headroom fl
            (gate fl (record { consume = some c; clickhouse = ingest }) corpus digest)
            arm)
        ≡ true
      → let checked =
          headroom fl
            (gate fl (record { consume = some c; clickhouse = ingest }) corpus digest)
            arm in
        IsUsable fl corpus digest c
        × IsHeld c.msgs_per_s checked.shares
        × ((r : ℕ) × (0 < r)
            × (applied_ingest_rows_per_s fl checked ≡ some r)
            × Source fl corpus digest arm.wire_format r ingest)
  unfolding headroom gate is_proven
  proven-IsUsable c ingest arm some_msgs some_bytes h =
      let cs : Ceilings fl.F = record { consume = some c; clickhouse = ingest } in
      let g = gate fl cs corpus digest in
      let i = transformed_headroom fl arm.server_side_transform g arm in
      let (refused, proven) = is_empty-append g.refusals i.unproven h in
      let (consume, _) =
        is_empty-append (gate_consume fl (some c) corpus digest).refusals _ refused in
      let (r, positive, at) = transformed-proven arm.server_side_transform g arm proven in
      let applied =
        applied-consume_share fl corpus digest g arm i (headroom fl g arm).unproven ∙ at in
      (
        gate_consume-IsUsable fl corpus digest c consume,
        headroom-IsHeld c ingest arm some_msgs some_bytes consume,
        (r, positive, applied, (applied-IsSource fl corpus digest cs arm r applied).1),
      )

  zero_share :
      (g : Ceiling fl.F) (arm : Achieved fl.F)
      → g.consume_msgs_per_s ≡ 0
      → consume_share fl g arm ≡ []
  unfolding consume_share
  zero_share g arm h =
      let none_positive : (ltb 0 g.consume_msgs_per_s && ltb 0 g.consume_bytes_per_s) ≡ false =
        subst (λ n. (ltb 0 n && ltb 0 g.consume_bytes_per_s) ≡ false) (sym h) refl in
      rw none_positive refl

  -- A consume ceiling of zero messages per second that passes the checks is not refused, and an arm
  -- has no share against it: the headroom counts as proven without a check against the broker.
  pub zero_rate_unchecked :
      (c : ConsumeCeiling fl.F) (ingest : List (IngestCeiling fl.F)) (arm : Achieved fl.F)
      → (check_consume fl c corpus digest).usable ≡ true
      → c.msgs_per_s ≡ 0
      → (is_empty (gate_consume fl (some c) corpus digest).refusals ≡ true)
        × (consume_share fl
              (gate fl (record { consume = some c; clickhouse = ingest }) corpus digest)
              arm
            ≡ [])
  unfolding gate gate_consume
  zero_rate_unchecked c ingest arm usable zero_rate =
      let g = gate fl (record { consume = some c; clickhouse = ingest }) corpus digest in
      let rate : g.consume_msgs_per_s ≡ 0 = rw usable zero_rate in
      (sym (check_consume-IsExact fl corpus digest c) ∙ usable, zero_share g arm rate)
