-- ===== src/Corpus/Expected/Ranges.antt =====
-- How the expectations of ranges relate.
use native.Mathlib.Nat.{add-zero, add_assoc, zero-add, suc-add, sub-zero}
use spate_benchmark.Prelude.{
  ℕ, zero, suc, ◌+◌, ◌-◌, ◌≤◌, not, Bool-cases, inl, inr, ◌≡◌, refl, sym, ap, ◌∙◌, arith,
  if◌then◌else◌,
}
use spate_benchmark.Prelude.Int.{◌+ℤ◌, +ℤ_assoc, +ℤ_zero}
use spate_benchmark.Ceiling.Float.{Float}
use spate_benchmark.Corpus.Workload.{Workload}
use spate_benchmark.Corpus.Generator.{keeps, quality_of}
use spate_benchmark.Corpus.Expected.{
  is_none, Expected, zero_expected, count_event, count_events, count_batches, expected_range,
  expected, rows_in, rows_from, expected_rows,
}

-- Field by field.
pub add : Expected → Expected → Expected
add a b = record {
  rows = a.rows + b.rows;
  value_sum = a.value_sum +ℤ b.value_sum;
  value_scaled_sum = a.value_scaled_sum +ℤ b.value_scaled_sum;
  sensor_sum = a.sensor_sum +ℤ b.sensor_sum;
  region_sum = a.region_sum +ℤ b.region_sum;
  name_sum = a.name_sum +ℤ b.name_sum;
  unit_sum = a.unit_sum +ℤ b.unit_sum;
  tag_count_sum = a.tag_count_sum +ℤ b.tag_count_sum;
  tag_sum = a.tag_sum +ℤ b.tag_sum;
  batch_ts_sum = a.batch_ts_sum +ℤ b.batch_ts_sum;
  null_quality_rows = a.null_quality_rows + b.null_quality_rows;
}

add_zero : (a : Expected) → add a zero_expected ≡ a
unfolding add
add_zero a = simp (+ℤ_zero, add-zero)

add_regroup : (a b c : Expected) → add (add a b) c ≡ add a (add b c)
unfolding add
add_regroup a b c = simp (+ℤ_assoc, add_assoc)

module _ (fl : Float) (w : Workload fl.F) where
  -- What one event adds does not depend on what was counted before.
  add-count_event :
      (b seq : ℕ) (a out : Expected)
      → add a (count_event fl w b out seq) ≡ count_event fl w b (add a out) seq
  unfolding add count_event
  add-count_event b seq a out = elim (Bool-cases (keeps fl w b seq)) [
    | inr dropped ↦ rw dropped refl
    | inl kept ↦ rw kept (elim (Bool-cases (is_none (quality_of fl w b seq))) [
      | inl bare ↦ rw bare (simp (+ℤ_assoc, add_assoc))
      | inr scored ↦ rw scored (simp (+ℤ_assoc, add_assoc))
    ])
  ]

  add-count_events :
      (b : ℕ) (a out : Expected) (seq count : ℕ)
      → add a (count_events fl w b out seq count) ≡ count_events fl w b (add a out) seq count
  unfolding count_events
  add-count_events b a out seq zero = refl
  add-count_events b a out seq (suc count) =
      add-count_events b a (count_event fl w b out seq) (seq + 1) count
      ∙ ap (λ o. count_events fl w b o (seq + 1) count) (add-count_event b seq a out)

  add-count_batches :
      (a out : Expected) (b count : ℕ)
      → add a (count_batches fl w out b count) ≡ count_batches fl w (add a out) b count
  unfolding count_batches
  add-count_batches a out b zero = refl
  add-count_batches a out b (suc count) =
      add-count_batches a (count_events fl w b out 0 w.events_per_batch) (b + 1) count
      ∙ ap (λ o. count_batches fl w o (b + 1) count) (add-count_events b a out 0 w.events_per_batch)

  count_batches-append :
      (out : Expected) (b m n : ℕ)
      → count_batches fl w out b (m + n) ≡ count_batches fl w (count_batches fl w out b m) (b + m) n
  unfolding count_batches
  count_batches-append out b zero n = rw (zero-add n, add-zero b) refl
  count_batches-append out b (suc m) n = rw (suc-add m n) (
      count_batches-append (count_events fl w b out 0 w.events_per_batch) (b + 1) m n
      ∙ ap
          (λ k.
            count_batches fl w
              (count_batches fl w (count_events fl w b out 0 w.events_per_batch) (b + 1) m) k n)
          (omega arith))

  -- The expectation of a range is that of its first part and that of the rest, added field by field: so
  -- a range is the difference of two prefixes.
  pub expected_range_split :
      (lo mid hi : ℕ)
      → lo ≤ mid
      → mid ≤ hi
      → expected_range fl w lo hi ≡ add (expected_range fl w lo mid) (expected_range fl w mid hi)
  unfolding expected_range
  expected_range_split lo mid hi h k =
      let first = count_batches fl w zero_expected lo (mid - lo) in
      let width : hi - lo ≡ (mid - lo) + (hi - mid) = omega arith in
      let middle : lo + (mid - lo) ≡ mid = omega arith in
      let rest : add first (count_batches fl w zero_expected mid (hi - mid))
          ≡ count_batches fl w first mid (hi - mid) =
        add-count_batches first zero_expected mid (hi - mid)
        ∙ ap (λ o. count_batches fl w o mid (hi - mid)) (add_zero first) in
      let joined : count_batches fl w zero_expected lo (mid - lo + (hi - mid))
          ≡ count_batches fl w first (lo + (mid - lo)) (hi - mid) =
        count_batches-append zero_expected lo (mid - lo) (hi - mid) in
      rw (width, rest) (rw middle at joined)

  rows-count_event :
      (b : ℕ) (out : Expected) (seq : ℕ)
      → (count_event fl w b out seq).rows
        ≡ (if not (keeps fl w b seq) then out.rows else out.rows + 1)
  unfolding count_event
  rows-count_event b out seq = ground arith

  rows-count_events :
      (b : ℕ) (out : Expected) (seq count : ℕ)
      → (count_events fl w b out seq count).rows ≡ rows_in fl w b out.rows seq count
  unfolding count_events rows_in
  rows-count_events b out seq zero = refl
  rows-count_events b out seq (suc count) =
      rows-count_events b (count_event fl w b out seq) (seq + 1) count
      ∙ ap (λ r. rows_in fl w b r (seq + 1) count) (rows-count_event b out seq)

  rows-count_batches :
      (out : Expected) (b count : ℕ)
      → (count_batches fl w out b count).rows ≡ rows_from fl w out.rows b count
  unfolding count_batches rows_from
  rows-count_batches out b zero = refl
  rows-count_batches out b (suc count) =
      rows-count_batches (count_events fl w b out 0 w.events_per_batch) (b + 1) count
      ∙ ap (λ r. rows_from fl w r (b + 1) count) (rows-count_events b out 0 w.events_per_batch)

  -- The cheap row count agrees with the full expectation.
  pub expected_rows-eq-rows :
      (batches : ℕ) → expected_rows fl w batches ≡ (expected fl w batches).rows
  unfolding expected_rows expected
  expected_rows-eq-rows batches = rw sub-zero (sym (rows-count_batches zero_expected 0 batches))
