-- ===== src/Sampler/Peak.antt =====
-- `simultaneous_peak_anon` of harness/src/sampler.rs. A cursor is the rows behind it, with the reading
-- that is held; readings of readable rows are not negative, so the sums are natural numbers.
pub mod Levels
pub mod Reference
pub mod Single
mod Examples
use spate_benchmark.Prelude.{
  ℕ, zero, suc, ◌+◌, ◌-◌, ◌^◌, min, max, Bool, true, false, Option, none, some, List, [], ◌∷◌, map,
  if◌then◌else◌, all, filter, ltb, leb, is_empty,
}
use spate_benchmark.Prelude.Int.{ℤ, pos_part}
use spate_benchmark.Sampler.{Sample, readable, last_of}

pub record Cursor : Type 0 where
  pub rest : List Sample
  pub held : Option ℤ

pub data Peak : Type 0 where
  peak : ℕ → Peak
  no_series : Peak
  out_of_fuel : Peak

abbrev pub bucket_ms : ℕ
bucket_ms = 1000

-- `bucket.saturating_add(BUCKET_MS)`
abbrev pub edge_of : ℕ → ℕ
edge_of bucket = min (bucket + bucket_ms) (2 ^ 64 - 1)

-- `while cursors[i] < rows.len() && rows[cursors[i]].t_ms < edge`
pub advance_rows : ℕ → Option ℤ → List Sample → Cursor
advance_rows edge held [] = record { rest = []; held = held }
advance_rows edge held (s ∷ ss) =
    let more = advance_rows edge (some s.anon) ss in
    if ltb s.t_ms edge then more else record { rest = s ∷ ss; held = held }

abbrev pub advance : ℕ → Cursor → Cursor
advance edge c = advance_rows edge c.held c.rest

abbrev pub held_value : Option ℤ → ℕ
held_value none = 0
held_value (some v) = pos_part v

pub total : List Cursor → ℕ
total [] = 0
total (c ∷ cs) = held_value c.held + total cs

pub loop : ℕ → ℕ → ℕ → ℕ → List Cursor → Peak
loop zero bucket last best cursors = out_of_fuel
loop (suc fuel) bucket last best cursors =
    let moved = map (advance (edge_of bucket)) cursors in
    let rest = loop fuel (edge_of bucket) last (max best (total moved)) moved in
    if leb bucket last then rest else peak best

abbrev start : List Sample → Cursor
start rows = record { rest = rows; held = none }

keep_min : ℕ → Option ℕ → ℕ
keep_min t none = t
keep_min t (some u) = min t u

keep_max : ℕ → Option ℕ → ℕ
keep_max t none = t
keep_max t (some u) = max t u

-- `filter_map(|rows| rows.first().map(|s| s.t_ms)).min()`
pub first_time : List (List Sample) → Option ℕ
unfolding keep_min
first_time [] = none
first_time ([] ∷ rss) = first_time rss
first_time ((s ∷ ss) ∷ rss) = some (keep_min s.t_ms (first_time rss))

pub last_time : List (List Sample) → Option ℕ
unfolding keep_max
last_time [] = none
last_time ([] ∷ rss) = last_time rss
last_time ((s ∷ ss) ∷ rss) = some (keep_max ((last_of s ss).t_ms) (last_time rss))

peak_between : ℕ → Option ℕ → Option ℕ → List (List Sample) → Peak
peak_between fuel (some first) (some last) rss = loop fuel first last 0 (map start rss)
peak_between fuel _ _ rss = no_series

pub peak_of_readable : ℕ → List (List Sample) → Peak
unfolding peak_between
peak_of_readable fuel rss =
    if all is_empty rss then no_series else peak_between fuel (first_time rss) (last_time rss) rss

pub simultaneous_peak_anon : ℕ → List (List Sample) → Peak
unfolding peak_of_readable
simultaneous_peak_anon fuel series = peak_of_readable fuel (map (filter readable) series)
