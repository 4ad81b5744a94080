-- ===== src/Jvm/Summary.antt =====
-- `GcLog::summarise` and `percentile` of harness/src/jvm.rs.
mod Counted
mod Examples
use spate_benchmark.Prelude.{
  ℕ, zero, suc, ◌-◌, min, max, Bool, true, false, not, Option, none, some, List, [], ◌∷◌, ◌++◌, map,
  Text, ◌&&◌, ◌==◌, if◌then◌else◌, length, get_elem?, ltb, is_empty, text_eq,
}
use spate_benchmark.Ceiling.Float.{Float}
use spate_benchmark.Jvm.{
  Reading, JvmError, no_uptime_decoration, Result, ok, err, HeapTriple, Pause, HeapConfig, GcLog,
}

pub record GcSummary (F : Type 0) : Type 0 where
  pub pauses : ℕ
  pub total_us : F
  pub max_us : F
  pub max_label : Text
  pub p50_us : F
  pub p99_us : F
  pub p999_us : F
  pub mean_us : F
  pub from_uptime_s : Option F
  pub to_uptime_s : Option F
  pub configured : HeapConfig
  pub peak_committed_bytes : Option ℕ
  pub peak_occupancy_bytes : Option ℕ
  pub peak_live_bytes : Option ℕ

-- `triples.iter().map(f).max()`
pub peak : {F : Type 0} → (HeapTriple → ℕ) → List (Pause F) → Option ℕ
peak f [] = none
peak f (p ∷ ps) = elim p.heap [
  | none ↦ peak f ps
  | some h ↦ elim (peak f ps) [ none ↦ some (f h) | some n ↦ some (max (f h) n) ]
]

abbrev pair : Option ℕ → Option ℕ → Option (ℕ × ℕ)
pair (some a) (some b) = some (a, b)
pair _ _ = none

pub configured_versus_committed : {F : Type 0} → GcSummary F → Option (ℕ × ℕ)
configured_versus_committed s = pair s.configured.max_bytes s.peak_committed_bytes

module _ (fl : Float) (reading : Reading fl.F) where
  open fl use {F, of_u64, add, mul, div, lt, le, decimal, total_le}

  abbrev share : Option (ℕ × ℕ) → Option F
  share none = none
  share (some (configured, committed)) =
      if ltb 0 configured then some (div (of_u64 committed) (of_u64 configured)) else none

  pub committed_share : GcSummary F → Option F
  committed_share s = share (configured_versus_committed s)

  -- `u >= from && u < to`
  abbrev pub is_within : F × F → F → Bool
  is_within (from, to) u = le from u && lt u to

  pub keep : F × F → Pause F → Option F → Result (List (Pause F)) → Result (List (Pause F))
  keep w p none rest = err no_uptime_decoration
  keep w p (some u) (err e) = err e
  keep w p (some u) (ok chosen) = ok (if is_within w u then p ∷ chosen else chosen)

  -- The pauses whose uptime stands in the window, in order.
  pub within : F × F → List (Pause F) → Result (List (Pause F))
  unfolding keep
  within w [] = ok []
  within w (p ∷ ps) = keep w p p.uptime_s (within w ps)

  pub choose : Option (F × F) → List (Pause F) → Result (List (Pause F))
  unfolding within
  choose none pauses = ok pauses
  choose (some w) pauses = within w pauses

  -- `sort_by(f64::total_cmp)`
  pub insert : F → List F → List F
  insert x [] = x ∷ []
  insert x (y ∷ ys) = let rest = insert x ys in if total_le x y then x ∷ y ∷ ys else y ∷ rest

  pub sort : List F → List F
  unfolding insert
  sort [] = []
  sort (x ∷ xs) = insert x (sort xs)

  pub sum : F → List F → F
  sum total [] = total
  sum total (x ∷ xs) = sum (add total x) xs

  -- `max_by`: the last of the largest.
  pub worst : Pause F → List (Pause F) → Pause F
  worst best [] = best
  worst best (p ∷ ps) = worst (if total_le best.us p.us then p else best) ps

  abbrev worst_label : List (Pause F) → Text
  worst_label [] = []
  worst_label (p ∷ ps) = (worst p ps).label

  abbrev pub or_0 : Option F → F
  or_0 none = decimal 0 1
  or_0 (some x) = x

  -- `sorted[rank.max(1).min(sorted.len()) - 1]`
  pub percentile : List F → F → F
  percentile [] q = decimal 0 1
  percentile (x ∷ xs) q =
      let len = length (x ∷ xs) in
      let rank = reading.ceil (mul q (of_u64 len)) in
      or_0 (get_elem? (x ∷ xs) (min (max rank 1) len - 1))

  abbrev first_uptime : List (Pause F) → Option F
  first_uptime [] = none
  first_uptime (p ∷ ps) = p.uptime_s

  pub last_uptime : List (Pause F) → Option F
  last_uptime [] = none
  last_uptime (p ∷ []) = p.uptime_s
  last_uptime (p ∷ q ∷ ps) = last_uptime (q ∷ ps)

  pub last : List F → F
  last [] = decimal 0 1
  last (x ∷ []) = x
  last (x ∷ y ∷ ys) = last (y ∷ ys)

  pub summary_of : HeapConfig → List (Pause F) → GcSummary F
  unfolding sort sum last
  summary_of heap chosen =
      let sorted = sort (map (λ (p : Pause F). p.us) chosen) in
      let total = sum (decimal 0 1) sorted in
      record {
        pauses = length sorted;
        total_us = total;
        max_us = last sorted;
        max_label = worst_label chosen;
        p50_us = percentile sorted (decimal 50 100);
        p99_us = percentile sorted (decimal 99 100);
        p999_us = percentile sorted (decimal 999 1000);
        mean_us = if is_empty sorted then decimal 0 1 else div total (of_u64 (length sorted));
        from_uptime_s = first_uptime chosen;
        to_uptime_s = last_uptime chosen;
        configured = heap;
        peak_committed_bytes = peak (λ h. h.capacity_bytes) chosen;
        peak_occupancy_bytes = peak (λ h. h.before_bytes) chosen;
        peak_live_bytes = peak (λ h. h.after_bytes) chosen;
      }

  summarised : HeapConfig → Result (List (Pause F)) → Result (GcSummary F)
  unfolding summary_of
  summarised heap (err e) = err e
  summarised heap (ok chosen) = ok (summary_of heap chosen)

  -- `GcLog::summarise`
  pub summarise : GcLog F → Option (F × F) → Result (GcSummary F)
  unfolding summarised choose
  summarise log uptime_window = summarised log.heap (choose uptime_window log.pauses)

  abbrev bump : F → Option (ℕ × F) → Option (ℕ × F)
  bump us none = some (1, add (decimal 0 1) us)
  bump us (some (n, total)) = some (suc n, add total us)

  pub tally : Text → Option (ℕ × F) → List (Pause F) → Option (ℕ × F)
  tally label entry [] = entry
  tally label entry (p ∷ ps) =
      tally label (if text_eq p.label label then bump p.us entry else entry) ps

  -- The map that the source builds, as the entry of each label.
  pub by_label : GcLog F → Text → Option (ℕ × F)
  unfolding tally
  by_label log label = tally label none log.pauses
