-- ===== src/Jvm/Summary/Counted.antt =====
-- Which pauses a summary counts, and where its quantiles come from.
use spate_benchmark.Prelude.{
  ℕ, zero, suc, sym, subst, ◌∙◌, ◌<◌, Bool, false, Option, none, some, List, [], ◌∷◌, map, length,
  length-map, filter, ◌≢◌, get_elem?, All, ◌≡◌, refl, ap, arith, Bool-cases, inl, inr,
}
use spate_benchmark.Ceiling.Float.{Float}
use spate_benchmark.Jvm.{
  Reading, Result, ok, err, Holds, Holds-map, Holds-ok, Pause, HeapConfig, GcLog,
}
use spate_benchmark.Jvm.Summary.{
  GcSummary, is_within, within, choose, insert, sort, or_0, keep, percentile, last, summary_of,
  summarised, summarise,
}

module _ (fl : Float) (reading : Reading fl.F) where
  open fl use {F, mul, of_u64, total_le}

  abbrev counts_at : F × F → Option F → Bool
  counts_at w none = false
  counts_at w (some u) = is_within fl reading w u

  -- The pause has an uptime that stands in the window.
  abbrev pub counts : F × F → Pause F → Bool
  counts w p = counts_at w p.uptime_s

  insert-length : (x : F) (xs : List F) → length (insert fl reading x xs) ≡ suc (length xs)
  unfolding insert
  insert-length x [] = refl
  insert-length x (y ∷ ys) = ground (arith, insert-length x ys)

  sort-length : (xs : List F) → length (sort fl reading xs) ≡ length xs
  unfolding sort
  sort-length [] = refl
  sort-length (x ∷ xs) = omega (arith, insert-length x (sort fl reading xs), sort-length xs)

  module _ (P : F → Type 0) where
    insert-All : (x : F) (xs : List F) → P x → All P xs → All P (insert fl reading x xs)
    unfolding insert
    insert-All x [] p _ = (p, tt)
    insert-All x (y ∷ ys) p (q, h) = elim (Bool-cases (total_le x y)) [
      | inl e ↦ rw e (p, (q, h))
      | inr e ↦ rw e (q, insert-All x ys p h)
    ]

    sort-All : (xs : List F) → All P xs → All P (sort fl reading xs)
    unfolding sort
    sort-All [] _ = tt
    sort-All (x ∷ xs) (p, h) = insert-All x (sort fl reading xs) p (sort-All xs h)

    last-All : (xs : List F) → All P xs → 0 < length xs → P (last fl reading xs)
    unfolding last
    last-All [] _ l = absurd (omega arith)
    last-All (x ∷ []) (p, _) l = p
    last-All (x ∷ y ∷ ys) (p, h) l = last-All (y ∷ ys) h (omega arith)

    get_elem?-All :
        (xs : List F) (i : ℕ) → All P xs → i < length xs → P (or_0 fl reading (get_elem? xs i))
    get_elem?-All [] i _ l = absurd (omega arith)
    get_elem?-All (x ∷ xs) zero (p, h) l = p
    get_elem?-All (x ∷ xs) (suc i) (p, h) l = get_elem?-All xs i h (omega arith)

    -- A percentile of a list that is not empty is one of its values.
    percentile-All :
        (xs : List F) (q : F) → All P xs → 0 < length xs → P (percentile fl reading xs q)
    unfolding percentile
    percentile-All [] q _ l = absurd (omega arith)
    percentile-All (x ∷ xs) q h l = get_elem?-All (x ∷ xs) _ h (omega arith)

  abbrev pub HasUptime : Pause F → Type 0
  HasUptime p = p.uptime_s ≢ none

  -- What is kept of the pauses for a window.
  record Chosen (w : F × F) (pauses chosen : List (Pause F)) : Type 0 where
    counted : chosen ≡ filter (counts w) pauses
    timed : All HasUptime pauses

  keep-Chosen :
      (w : F × F) (p : Pause F) (ps : List (Pause F)) (o : Option F) (r : Result (List (Pause F)))
      → p.uptime_s ≡ o
      → Holds (Chosen w ps) r
      → Holds (Chosen w (p ∷ ps)) (keep fl reading w p o r)
  unfolding keep
  keep-Chosen w p ps none r e h = tt
  keep-Chosen w p ps (some u) (err x) e h = tt
  keep-Chosen w p ps (some u) (ok chosen) e h = record {
    counted = simp (e, h.counted) refl;
    timed = (λ n. cc, h.timed);
  }

  within-Chosen : (w : F × F) (ps : List (Pause F)) → Holds (Chosen w ps) (within fl reading w ps)
  unfolding within
  within-Chosen w [] = record { counted = refl; timed = tt }
  within-Chosen w (p ∷ ps) =
      keep-Chosen w p ps p.uptime_s (within fl reading w ps) refl (within-Chosen w ps)

  -- What a summary says of the chosen pauses.
  summary_of-pauses :
      (heap : HeapConfig) (chosen : List (Pause F))
      → (summary_of fl reading heap chosen).pauses ≡ length chosen
  unfolding summary_of
  summary_of-pauses heap chosen =
      sort-length (map (λ (p : Pause F). p.us) chosen) ∙ length-map (λ (p : Pause F). p.us) chosen

  counted_of_Chosen :
      (w : F × F) (log : GcLog F) (r : Result (List (Pause F)))
      → Holds (Chosen w log.pauses) r
      → Holds
          (λ s. (s.pauses ≡ length (filter (counts w) log.pauses)) × All HasUptime log.pauses)
          (summarised fl reading log.heap r)
  unfolding summarised
  counted_of_Chosen w log (err e) h = tt
  counted_of_Chosen w log (ok chosen) h =
      (summary_of-pauses log.heap chosen ∙ ap length h.counted, h.timed)

  -- A summary over a window counts the pauses whose uptime stands in it, the end excluded, and is
  -- given only where every pause has an uptime.
  pub summarise-pauses :
      (log : GcLog F) (w : F × F) (s : GcSummary F)
      → summarise fl reading log (some w) ≡ ok s
      → (s.pauses ≡ length (filter (counts w) log.pauses)) × All HasUptime log.pauses
  unfolding summarise choose
  summarise-pauses log w s h =
      Holds-ok _ (summarise fl reading log (some w)) s
        (counted_of_Chosen w log (within fl reading w log.pauses) (within-Chosen w log.pauses)) h

  module _ (P : F → Type 0) where
    abbrev AllUs : List (Pause F) → Type 0
    AllUs = All (λ p. P p.us)

    AllUs-filter : (f : Pause F → Bool) (ps : List (Pause F)) → AllUs ps → AllUs (filter f ps)
    AllUs-filter f [] _ = tt
    AllUs-filter f (p ∷ ps) (q, h) = elim (Bool-cases (f p)) [
      | inl e ↦ rw e (q, AllUs-filter f ps h)
      | inr e ↦ rw e (AllUs-filter f ps h)
    ]

    chosen-AllUs :
        (o : Option (F × F)) (ps : List (Pause F)) → AllUs ps → Holds AllUs (choose fl reading o ps)
    unfolding choose
    chosen-AllUs none ps h = h
    chosen-AllUs (some w) ps h =
        Holds-map (Chosen w ps) AllUs
          (λ chosen c. subst AllUs (sym c.counted) (AllUs-filter (counts w) ps h))
          (within fl reading w ps) (within-Chosen w ps)

    map-AllUs : (ps : List (Pause F)) → AllUs ps → All P (map (λ (p : Pause F). p.us) ps)
    map-AllUs [] _ = tt
    map-AllUs (p ∷ ps) (q, h) = (q, map-AllUs ps h)

    abbrev Measured : GcSummary F → Type 0
    Measured s = P s.p50_us × P s.p99_us × P s.p999_us × P s.max_us

    summary_of-Measured :
        (heap : HeapConfig) (chosen : List (Pause F))
        → AllUs chosen
        → 0 < (summary_of fl reading heap chosen).pauses
        → Measured (summary_of fl reading heap chosen)
    unfolding summary_of
    summary_of-Measured heap chosen h l =
        let sorted = sort-All P (map (λ (p : Pause F). p.us) chosen) (map-AllUs chosen h) in
        (
          percentile-All P _ _ sorted l,
          percentile-All P _ _ sorted l,
          percentile-All P _ _ sorted l,
          last-All P _ sorted l,
        )

    summarised-Measured :
        (heap : HeapConfig) (r : Result (List (Pause F)))
        → Holds AllUs r
        → Holds (λ s. 0 < s.pauses → Measured s) (summarised fl reading heap r)
    unfolding summarised
    summarised-Measured heap (err e) h = tt
    summarised-Measured heap (ok chosen) h = summary_of-Measured heap chosen h

    -- What holds of every pause of a log holds of the median, the two high percentiles and the
    -- largest of a summary that counts a pause: each of them is a pause that happened.
    pub summarise-Measured :
        (log : GcLog F) (o : Option (F × F)) (s : GcSummary F)
        → summarise fl reading log o ≡ ok s
        → 0 < s.pauses
        → All (λ p. P p.us) log.pauses
        → P s.p50_us × P s.p99_us × P s.p999_us × P s.max_us
    unfolding summarise
    summarise-Measured log o s h l all =
        Holds-ok (λ t. 0 < t.pauses → Measured t) (summarise fl reading log o) s
          (summarised-Measured log.heap (choose fl reading o log.pauses)
            (chosen-AllUs o log.pauses all))
          h l
