-- ===== src/Sampler/Peak/Single.antt =====
-- `simultaneous_peak_anon` of one container, whose rows come at the interval of the sampler.
use spate_benchmark.Prelude.{
  ℕ, zero, suc, ◌+◌, ◌-◌, ◌*◌, ◌/◌, ◌^◌, ◌≤◌, ◌<◌, true, false, some, List, [], ◌∷◌, map, ◌≡◌, refl,
  arith, filter, ltb, All, All-map, ◌∙◌, ap,
}
use spate_benchmark.Prelude.Int.{pos_part}
use spate_benchmark.Sampler.{Sample, readable, last_of, max_over}
use spate_benchmark.Sampler.Peak.{
  peak, keep_min, keep_max, first_time, last_time, simultaneous_peak_anon,
}
use spate_benchmark.Sampler.Peak.Levels.{last_before, level_sum, peak_of, InOrder}
use spate_benchmark.Sampler.Peak.Reference.{simultaneous_peak_anon_lem, simultaneous_peak_anon-le}

-- Every row is at least one interval behind the rows before it.
abbrev pub AreSpaced : List Sample → Type 0
AreSpaced [] = Unit
AreSpaced (s ∷ ss) = All (λ t. s.t_ms + 1000 ≤ t.t_ms) ss × AreSpaced ss

AreSpaced-InOrder : (rows : List Sample) → AreSpaced rows → InOrder rows
AreSpaced-InOrder [] _ = tt
AreSpaced-InOrder (s ∷ ss) (later, sp) =
    (All-map (λ t h. omega arith) ss later, AreSpaced-InOrder ss sp)

none_before :
    (e : ℕ) (rows : List Sample) (v : ℕ) → All (λ t. e ≤ t.t_ms) rows → last_before e rows v ≡ v
none_before e [] v h = refl
none_before e (s ∷ ss) v (le, h) =
    let late : ltb s.t_ms e ≡ false = ground arith in rw late (none_before e ss v h)

level_at :
    (k n b : ℕ) (rss : List (List Sample))
    → k < n
    → level_sum (b + 1000 * (k + 1)) rss ≤ peak_of n b rss
level_at k zero b rss h = absurd (omega arith)
level_at zero (suc n) b rss h = omega arith
level_at (suc k) (suc n) b rss h =
    let same : b + 1000 * (suc k + 1) ≡ b + 1000 + 1000 * (k + 1) = omega arith in
    rw same (omega (arith, level_at k n (b + 1000) rss (omega arith)))

-- The place of a bucket's edge behind a time.
abbrev edge_at : ℕ → ℕ → ℕ
edge_at first k = first + 1000 * (k + 1)

-- Each row is what the container held at the edge behind it.
rows_seen :
    (first last p floor v : ℕ) (rows : List Sample)
    → AreSpaced rows
    → first ≤ floor
    → All (λ t. (floor ≤ t.t_ms) × (t.t_ms ≤ last)) rows
    → ((k : ℕ)
        → k < (last - first) / 1000 + 1
        → floor < edge_at first k
        → last_before (edge_at first k) rows v ≤ p)
    → max_over (λ s. s.anon) rows ≤ p
unfolding max_over
rows_seen first last p floor v [] sp f r h = omega arith
rows_seen first last p floor v (s ∷ ss) (later, sp) f ((lo, hi), r) h =
    let k = (s.t_ms - first) / 1000 in
    let before : ltb s.t_ms (edge_at first k) ≡ true = ground arith in
    let bound : last_before (edge_at first k) (s ∷ ss) v ≤ p = h k (omega arith) (omega arith) in
    let here : last_before (edge_at first k) ss (pos_part s.anon) ≤ p = rw before at bound in
    let alone =
      none_before (edge_at first k) ss (pos_part s.anon) (All-map (λ t b. omega arith) ss later) in
    let rest =
      rows_seen first last p s.t_ms (pos_part s.anon) ss sp (omega arith)
        (All-both ss later (All-map (λ t b. b.1) ss r))
        (λ i small past.
          let passed : ltb s.t_ms (edge_at first i) ≡ true = ground arith in
          let bound : last_before (edge_at first i) (s ∷ ss) v ≤ p = h i small (omega arith) in
          rw passed at bound) in
    omega (arith, here, alone, rest)
  where
    All-both :
        (ts : List Sample)
        → All (λ t. s.t_ms + 1000 ≤ t.t_ms) ts
        → All (λ t. t.t_ms ≤ last) ts
        → All (λ t. (s.t_ms ≤ t.t_ms) × (t.t_ms ≤ last)) ts
    All-both [] a b = tt
    All-both (t ∷ ts) (a, more) (b, bs) = ((omega arith, b), All-both ts more bs)

within_last :
    (s : Sample) (ss : List Sample)
    → AreSpaced (s ∷ ss)
    → All (λ t. (s.t_ms ≤ t.t_ms) × (t.t_ms ≤ (last_of s ss).t_ms)) (s ∷ ss)
unfolding last_of
within_last s [] sp = (omega arith, tt)
within_last s (t ∷ ts) ((far, fars), sp) =
    let rest = within_last t ts sp in
    let (_, end) = rest.0 in
    ((omega arith, omega arith), All-map (λ u h. omega arith) (t ∷ ts) rest)

-- Where a container's readable rows are at least one interval of the sampler apart, and end before the
-- largest timestamp, the peak of an arm of this container alone is its own largest reading; fuel for one
-- round more than there are buckets is enough.
pub simultaneous_peak_anon-single :
    (rows : List Sample) (s : Sample) (ss : List Sample) (fuel : ℕ)
    → filter readable rows ≡ s ∷ ss
    → AreSpaced (s ∷ ss)
    → (last_of s ss).t_ms + 1000 < 2 ^ 64
    → ((last_of s ss).t_ms - s.t_ms) / 1000 + 1 < fuel
    → simultaneous_peak_anon fuel (rows ∷ []) ≡ peak (max_over (λ t. t.anon) (s ∷ ss))
unfolding first_time last_time keep_min keep_max
simultaneous_peak_anon-single rows s ss fuel e sp top enough =
    let last = (last_of s ss).t_ms in
    let n = (last - s.t_ms) / 1000 + 1 in
    let p = peak_of n s.t_ms ((s ∷ ss) ∷ []) in
    let f : first_time (map (filter readable) (rows ∷ [])) ≡ some s.t_ms = rw e refl in
    let l : last_time (map (filter readable) (rows ∷ [])) ≡ some last = rw e refl in
    let by_edges =
      simultaneous_peak_anon_lem (rows ∷ []) s.t_ms last fuel f l
        (rw e (AreSpaced-InOrder (s ∷ ss) sp, tt)) top enough in
    let found : simultaneous_peak_anon fuel (rows ∷ []) ≡ peak p = rw e at by_edges in
    let bound = simultaneous_peak_anon-le (rows ∷ []) last fuel p l (omega arith) found in
    let within : p ≤ max_over (λ t. t.anon) (s ∷ ss) + 0 = rw e at bound in
    let seen : max_over (λ t. t.anon) (s ∷ ss) ≤ p =
      rows_seen s.t_ms last p s.t_ms 0 (s ∷ ss) sp (omega arith) (within_last s ss sp)
        (λ k small past. omega (arith, level_at k n s.t_ms ((s ∷ ss) ∷ []) small)) in
    found ∙ ap peak (omega arith)
