-- ===== src/Ceiling/Gate/Applied.antt =====
-- The ClickHouse ceiling that `Ceilings::gate` lets through to an arm.
use spate_benchmark.Prelude.{
  ℕ, Bool, true, false, not, Option, none, some, List, [], ◌∷◌, ◌++◌, Text, text_eq, ◌≡◌, refl,
  ◌&&◌, ltb, is_empty, find, get_elem?, Bool-cases, inl, inr, eq_of_text_eq, ◌∙◌, suc, sym, subst,
  ap, ◌||◌,
}
use spate_benchmark.Ceiling.Float.{Float}
use spate_benchmark.Ceiling.File.{IngestCeiling, Ceilings}
use spate_benchmark.Ceiling.Gate.{
  Reason, GateableIngest, Ceiling, is_inside, Headroom, Achieved, gate_ingest, gate, consume_share,
  ingest_headroom, transformed_headroom, headroom, applied_ingest_rows_per_s, is_ingest, ceiling_of,
}
use spate_benchmark.Ceiling.Gate.Usable.{true_of_not}

-- An ingest ceiling that may be gated against.
pub record IsSource {F : Type 0} (digest format : Text) (rows : ℕ) (c : IngestCeiling F)
    : Type 0 where
  pub named : c.format ≡ format
  pub rate : c.rows_per_s ≡ rows
  pub inside : is_inside c.client ≡ true
  pub recorded : is_empty c.provenance.infra_digest ≡ false
  pub envelope : c.provenance.infra_digest ≡ digest

or_false : (a b : Bool) → (a || b) ≡ false → (a ≡ false) × (b ≡ false)
or_false true b h = cc
or_false false b h = (refl, h)

rate_of : Option GateableIngest → ℕ
rate_of none = 0
rate_of (some g) = g.rows_per_s

module _ (fl : Float) (corpus : ℕ) (digest : Text) where
  -- Where a gated entry stands in the file.
  abbrev pub Source : {F : Type 0} → Text → ℕ → List (IngestCeiling F) → Type 0
  Source {F} format rows cs =
      (i : ℕ) × (c : IngestCeiling F) × (get_elem? cs i ≡ some c) × IsSource digest format rows c

  later :
      (format : Text) (rows : ℕ) (c : IngestCeiling fl.F) (cs : List (IngestCeiling fl.F))
      → Source format rows cs
      → Source format rows (c ∷ cs)
  later format rows c cs (i, d, found, s) = (suc i, d, found, s)

  gate_ingest-Source :
      (format : Text) (cs : List (IngestCeiling fl.F)) (g : GateableIngest)
      → find (λ c. text_eq c.format format) (gate_ingest fl digest cs).ingest ≡ some g
      → Source format g.rows_per_s cs
  unfolding gate_ingest rate_of
  gate_ingest-Source format [] g h = cc
  gate_ingest-Source format (c ∷ cs) g h =
      let recorded = c.provenance.infra_digest in
      elim (Bool-cases (is_empty recorded || not (text_eq recorded digest))) [
        | inl bad ↦ later format g.rows_per_s c cs (gate_ingest-Source format cs g (rw bad at h))
        | inr good ↦ elim (Bool-cases (is_inside c.client)) [
          | inr away ↦
              later format g.rows_per_s c cs (gate_ingest-Source format cs g (rw (good, away) at h))
          | inl inside ↦ elim (Bool-cases (text_eq c.format format)) [
            | inr other ↦
                later format g.rows_per_s c cs
                  (gate_ingest-Source format cs g (rw (good, inside, other) at h))
            | inl named ↦
                let this : some (record { format = c.format; rows_per_s = c.rows_per_s }) ≡ some g =
                  rw (good, inside, named) at h in
                let (empty, differs) = or_false (is_empty recorded) _ good in
                (
                  0,
                  c,
                  refl,
                  record {
                    named = eq_of_text_eq c.format format named;
                    rate = ap rate_of this;
                    inside = inside;
                    recorded = empty;
                    envelope = eq_of_text_eq recorded digest (true_of_not _ differs);
                  },
                )
          ]
        ]
      ]

  ingest_headroom-applied :
      (arm : Achieved fl.F) (o : Option GateableIngest) (r : ℕ)
      → applied_ingest_rows_per_s fl (ingest_headroom fl arm o) ≡ some r
      → (g : GateableIngest) × (o ≡ some g) × (g.rows_per_s ≡ r)
  unfolding ingest_headroom applied_ingest_rows_per_s is_ingest ceiling_of
  ingest_headroom-applied arm none r h = cc
  ingest_headroom-applied arm (some g) r h = elim (Bool-cases (ltb 0 g.rows_per_s)) [
    | inl positive ↦ let rate : some g.rows_per_s ≡ some r = rw positive at h in (g, refl, cc)
    | inr zero_rate ↦ let nothing : none ≡ some r = rw zero_rate at h in cc
  ]

  pub applied-consume_share :
      (g : Ceiling fl.F) (arm : Achieved fl.F) (i : Headroom fl.F) (rs : List (Reason fl.F))
      → applied_ingest_rows_per_s fl
          (record { shares = consume_share fl g arm ++ i.shares; unproven = rs })
        ≡ applied_ingest_rows_per_s fl i
  unfolding consume_share applied_ingest_rows_per_s is_ingest ceiling_of
  applied-consume_share g arm i rs =
      elim (Bool-cases (ltb 0 g.consume_msgs_per_s && ltb 0 g.consume_bytes_per_s)) [
        | inl held ↦ rw held refl
        | inr absent ↦ rw absent refl
      ]

  transformed-applied :
      (b : Bool) (cs : Ceilings fl.F) (arm : Achieved fl.F) (r : ℕ)
      → applied_ingest_rows_per_s fl (transformed_headroom fl b (gate fl cs corpus digest) arm)
        ≡ some r
      → (b ≡ false) × Source arm.wire_format r cs.clickhouse
  unfolding transformed_headroom gate applied_ingest_rows_per_s is_ingest ceiling_of
  transformed-applied true cs arm r h = cc
  transformed-applied false cs arm r h =
      let (g, found, rate) = ingest_headroom-applied arm _ r h in
      (
        refl,
        subst (λ n. Source arm.wire_format n cs.clickhouse) rate
            (gate_ingest-Source arm.wire_format cs.clickhouse g found),
      )

  -- The ClickHouse ceiling that an arm is held to is the rate of an entry of the file in the arm's
  -- own format, taken inside the bench network under this environment's envelope; and the arm
  -- installs no ClickHouse objects of its own.
  pub applied-IsSource :
      (cs : Ceilings fl.F) (arm : Achieved fl.F) (r : ℕ)
      → applied_ingest_rows_per_s fl (headroom fl (gate fl cs corpus digest) arm) ≡ some r
      → (arm.server_side_transform ≡ false) × Source arm.wire_format r cs.clickhouse
  unfolding headroom
  applied-IsSource cs arm r h =
      let g = gate fl cs corpus digest in
      let i = transformed_headroom fl arm.server_side_transform g arm in
      transformed-applied arm.server_side_transform cs arm r
        (sym (applied-consume_share g arm i (headroom fl g arm).unproven) ∙ h)
