-- ===== src/Arm/Agrees.antt =====
-- The Spate arm's flatten of a generated batch, against the expectations of harness/src/corpus.rs.
use spate_benchmark.Prelude.{
  ℕ, zero, suc, ◌+◌, ◌≤◌, ◌<◌, ◌^◌, Bool, true, false, not, Option, none, some, List, [], ◌∷◌, ◌++◌,
  append_assoc, append-nil, Text, codes, if◌then◌else◌, text_eq, length, leb, ◌&&◌, ◌-◌, Bool-cases,
  inl, inr, ◌≡◌, refl, ap, ◌∙◌, arith, ltb,
}
use spate_benchmark.Prelude.Int.{ℤ, pos, ◌+ℤ◌}
use spate_benchmark.Ceiling.Float.{Float}
use spate_benchmark.Corpus.Workload.{Workload}
use spate_benchmark.Corpus.Generator.{
  sensor_of, region_of, batch_ts_ms_of, name_of, unit_of, value_of, quality_of, tags_of, keeps,
  below, value_scaled_of,
}
use spate_benchmark.Corpus.Generator
use spate_benchmark.Corpus.Avro.{
  AvroValue, strings, event_value, event_values, batch_value, Fields, field, end, int, long, string,
  array, nullable, as_double, as_string,
}
use spate_benchmark.Corpus.Expected.{
  Expected, zero_expected, unwrap_text, is_none, str_fingerprint, concat, count_event, count_events,
  count_batches, expected_range,
}
use spate_benchmark.Arm.{
  Row, Batch, skipped, emitted, ascii_upper, value_scaled, strs, as_quality, as_union, below_floor,
  row_of, emit_row, or_empty, open_batch, continue, flatten_event, flatten_events, flatten_value,
}

-- What the arm restates of the workload, and that a sequence number fits its column.
pub record IsRestated (fl : Float) (w : Workload fl.F) : Type 0 where
  pub drop_unit : w.drop_unit ≡ codes "drop"
  pub quality_floor : w.quality_floor ≡ fl.decimal 2 10
  pub events_fit : w.events_per_batch ≤ 65536

strs-strings : (F : Type 0) (ss : List Text) → strs {F = F} (strings ss) ≡ some ss
unfolding strs
strs-strings F [] = refl
strs-strings F (s ∷ ss) = rw (strs-strings F ss) refl

same_upper : (s : Text) → ascii_upper s ≡ Generator.ascii_upper s
unfolding ascii_upper Generator.ascii_upper
same_upper [] = refl
same_upper (c ∷ s) =
    ap (λ (t : Text). (if leb b'a' c && leb c b'z' then c - 32 else c) ∷ t) (same_upper s)

module _ (fl : Float) (w : Workload fl.F) where
  -- The row that the generator's columns make.
  pub generated_row : ℕ → ℤ → ℕ → Row fl.F
  generated_row b ts seq = record {
    batch_id = b;
    event_seq = seq;
    sensor = sensor_of fl w b;
    region = unwrap_text (region_of fl w b);
    name_upper = Generator.ascii_upper (name_of fl w b seq);
    unit = unit_of fl w b seq;
    value = value_of b seq;
    value_scaled = value_scaled_of (value_of b seq) seq;
    quality = quality_of fl w b seq;
    tags = tags_of fl w b seq;
    batch_ts = batch_ts_ms_of fl w b;
    send_ts = ts;
  }

  abbrev opened : ℕ → ℤ → Batch
  opened b ts = record {
    batch_id = b;
    sensor = sensor_of fl w b;
    region = unwrap_text (region_of fl w b);
    batch_ts_ms = batch_ts_ms_of fl w b;
    send_ts_us = ts;
  }

  or_empty_lem :
      (o : Option Text)
      → or_empty (as_union {F = fl.F} (nullable (as_string o))) ≡ some (unwrap_text o)
  unfolding or_empty as_union
  or_empty_lem none = refl
  or_empty_lem (some s) = refl

  as_quality_lem : (q : Option fl.F) → as_quality (as_union (nullable (as_double q))) ≡ some q
  unfolding as_quality as_union
  as_quality_lem none = refl
  as_quality_lem (some q) = refl

  abbrev event_fields : ℕ → ℕ → Fields fl.F
  event_fields b seq = field (codes "seq") (int (pos seq)) (
      field (codes "name") (string (name_of fl w b seq)) (
        field (codes "unit") (string (unit_of fl w b seq)) (
          field (codes "value") (long (value_of b seq)) (
            field (codes "quality") (nullable (as_double (quality_of fl w b seq)))
              (field (codes "tags") (array (strings (tags_of fl w b seq))) end)))))

  row_of_lem :
      (b seq : ℕ) (ts : ℤ)
      → seq < 65536
      → row_of fl (opened b ts) (event_fields b seq) (unit_of fl w b seq) (quality_of fl w b seq)
        ≡ some (generated_row b ts seq)
  unfolding row_of generated_row value_scaled value_scaled_of
  row_of_lem b seq ts h =
      let wide : ltb seq (2 ^ 32) ≡ true = ground arith in
      let narrow : ltb seq 65536 ≡ true = ground arith in
      rw (wide, narrow, strs-strings fl.F (tags_of fl w b seq), same_upper) refl

  decide :
      (t : Bool) (q : Option fl.F) (r : Row fl.F)
      → (if t then some skipped else (if below_floor fl q then some skipped else some (emitted r)))
        ≡ some (
            if (if t then false else not (below fl w (fl.decimal 2 10) q))
            then emitted r
            else skipped)
  unfolding below_floor
  decide true q r = refl
  decide false none r = refl
  decide false (some q) r = ground arith

  -- The rows of the events from `seq` on.
  pub generated_rows : ℕ → ℤ → ℕ → ℕ → List (Row fl.F)
  generated_rows b ts seq zero = []
  generated_rows b ts seq (suc count) =
      let rest = generated_rows b ts (seq + 1) count in
      if keeps fl w b seq then generated_row b ts seq ∷ rest else rest

  module _ (same : IsRestated fl w) where
    keeps_lem :
        (b seq : ℕ)
        → keeps fl w b seq ≡ (
            if text_eq (unit_of fl w b seq) (codes "drop")
            then false
            else not (below fl w (fl.decimal 2 10) (quality_of fl w b seq)))
    unfolding keeps
    keeps_lem b seq = simp (same.drop_unit, same.quality_floor)

    flatten_event_value :
        (b seq : ℕ) (ts : ℤ)
        → seq < 65536
        → flatten_event fl (opened b ts) (event_value fl w b seq)
          ≡ some (if keeps fl w b seq then emitted (generated_row b ts seq) else skipped)
    unfolding flatten_event event_value emit_row
    flatten_event_value b seq ts h =
        rw (as_quality_lem (quality_of fl w b seq), row_of_lem b seq ts h, keeps_lem b seq)
          (decide (text_eq (unit_of fl w b seq) (codes "drop")) (quality_of fl w b seq)
            (generated_row b ts seq))

    flatten_event_values :
        (b seq count : ℕ) (ts : ℤ) (done : List (Row fl.F))
        → seq + count ≤ 65536
        → flatten_events fl (opened b ts) done (event_values fl w b seq count)
          ≡ record { rows = done ++ generated_rows b ts seq count; panicked = false }
    unfolding flatten_events event_values generated_rows continue
    flatten_event_values b seq zero ts done h = rw append-nil refl
    flatten_event_values b seq (suc count) ts done h =
        rw (flatten_event_value b seq ts (omega arith)) (elim (Bool-cases (keeps fl w b seq)) [
          | inl kept ↦ rw kept (
              flatten_event_values b (seq + 1) count ts (done ++ generated_row b ts seq ∷ [])
                (omega arith)
              ∙ rw append_assoc refl)
          | inr dropped ↦ rw dropped (flatten_event_values b (seq + 1) count ts done (omega arith))
        ])

    open_batch_lem :
        (b : ℕ) (ts : ℤ)
        → b < 2 ^ 63
        → open_batch fl (batch_value fl w b ts)
          ≡ some (opened b ts, event_values fl w b 0 w.events_per_batch)
    unfolding open_batch batch_value
    open_batch_lem b ts h =
        let fits : ltb b (2 ^ 64) ≡ true = ground arith in
        rw fits (rw (or_empty_lem (region_of fl w b)) refl)

    -- The arm's flatten of a generated batch emits, in order, the rows that the generator's own columns
    -- make for the events that it keeps, and does not panic.
    pub flatten_batch :
        (b : ℕ) (ts : ℤ)
        → b < 2 ^ 63
        → flatten_value fl (batch_value fl w b ts)
          ≡ record { rows = generated_rows b ts 0 w.events_per_batch; panicked = false }
    unfolding flatten_value
    flatten_batch b ts h =
        rw (open_batch_lem b ts h)
          (flatten_event_values b 0 w.events_per_batch ts [] (omega (arith, same.events_fit)))

-- The columns of a landed row, summed as the correctness gate sums them.
tally_row : {F : Type 0} → Expected → Row F → Expected
tally_row out r = record {
  rows = out.rows + 1;
  value_sum = out.value_sum +ℤ r.value;
  value_scaled_sum = out.value_scaled_sum +ℤ r.value_scaled;
  sensor_sum = out.sensor_sum +ℤ str_fingerprint r.sensor;
  region_sum = out.region_sum +ℤ str_fingerprint r.region;
  name_sum = out.name_sum +ℤ str_fingerprint r.name_upper;
  unit_sum = out.unit_sum +ℤ str_fingerprint r.unit;
  tag_count_sum = out.tag_count_sum +ℤ pos (length r.tags);
  tag_sum = out.tag_sum +ℤ str_fingerprint (concat r.tags);
  batch_ts_sum = out.batch_ts_sum +ℤ r.batch_ts;
  null_quality_rows =
      if is_none r.quality then out.null_quality_rows + 1 else out.null_quality_rows;
}

pub tally : {F : Type 0} → Expected → List (Row F) → Expected
unfolding tally_row
tally out [] = out
tally out (r ∷ rs) = tally (tally_row out r) rs

-- The arm over a range of batches, each behind the wire: what it emits, tallied.
module _ (fl : Float) (w : Workload fl.F) (decoded : ℕ → AvroValue fl.F) where
  pub tally_batches : Expected → ℕ → ℕ → Expected
  tally_batches out b zero = out
  tally_batches out b (suc count) =
      tally_batches (tally out (flatten_value fl (decoded b)).rows) (b + 1) count

module _ (fl : Float) (w : Workload fl.F) (same : IsRestated fl w) where
  tally-generated_rows :
      (b seq count : ℕ) (ts : ℤ) (out : Expected)
      → tally out (generated_rows fl w b ts seq count) ≡ count_events fl w b out seq count
  unfolding tally generated_rows generated_row count_events count_event
  tally-generated_rows b seq zero ts out = refl
  tally-generated_rows b seq (suc count) ts out = elim (Bool-cases (keeps fl w b seq)) [
    | inl kept ↦ rw kept (tally-generated_rows b (seq + 1) count ts _)
    | inr dropped ↦ rw dropped (tally-generated_rows b (seq + 1) count ts out)
  ]

  module _ (send_ts : ℕ → ℤ) where
    tally_batches_lem :
        (out : Expected) (b count : ℕ)
        → b + count ≤ 2 ^ 63
        → tally_batches fl w (λ i. batch_value fl w i (send_ts i)) out b count
          ≡ count_batches fl w out b count
    unfolding tally_batches count_batches
    tally_batches_lem out b zero h = refl
    tally_batches_lem out b (suc count) h =
        rw
          (
            flatten_batch fl w same b (send_ts b) (omega arith),
            tally-generated_rows b 0 w.events_per_batch (send_ts b) out,
          )
          (tally_batches_lem (count_events fl w b out 0 w.events_per_batch) (b + 1) count
            (omega arith))

    -- Over any range of generated batches below 2^45, whose sums an `i128` holds, the columns that the
    -- arm emits sum to what `expected_range` computes, if each batch has at most 65536 events and the
    -- arm restates the workload's filter.
    pub flatten_expected_range :
        (lo hi : ℕ)
        → lo ≤ hi
        → hi ≤ 2 ^ 45
        → tally_batches fl w (λ i. batch_value fl w i (send_ts i)) zero_expected lo (hi - lo)
          ≡ expected_range fl w lo hi
    unfolding expected_range
    flatten_expected_range lo hi h fits = tally_batches_lem zero_expected lo (hi - lo) (omega arith)
