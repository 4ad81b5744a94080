-- ===== src/Ceiling/Sweep.antt =====
-- `Sweep` of harness/src/ceiling.rs: which concurrency the ingest pass tries next, and the best rung.
pub mod Laws
pub mod Best
mod Examples
use spate_benchmark.Prelude.{
  ℕ, zero, suc, ◌+◌, ◌-◌, ◌*◌, ◌^◌, ◌≤◌, ◌<◌, min, max, Bool, true, false, not, Option, none, some,
  List, [], ◌∷◌, ◌++◌, ◌||◌, ◌&&◌, leb, ◌==◌, if◌then◌else◌, is_empty, length, get_elem?,
}
use spate_benchmark.Ceiling.Float.{Float}

pub record SweepPoint : Type 0 where
  pub concurrency : ℕ
  pub rows_per_s : ℕ

pub record Sweep : Type 0 where
  pub step : ℕ
  pub max_rung : ℕ
  pub next : Option ℕ
  pub points : List SweepPoint
  pub best : ℕ
  pub misses : ℕ

abbrev pub max_u64 : ℕ
max_u64 = 2 ^ 64 - 1

abbrev pub patience : ℕ
patience = 2

-- `from.clamp(1, max)`
abbrev clamp_rung : ℕ → ℕ → ℕ
clamp_rung from top = min (max from 1) top

pub new : ℕ → ℕ → ℕ → Sweep
new from step top = record {
  step = max step 2;
  max_rung = max top 1;
  next = some (clamp_rung from (max top 1));
  points = [];
  best = 0;
  misses = 0;
}

-- `a.saturating_mul(b)` on u64
abbrev saturating_mul : ℕ → ℕ → ℕ
saturating_mul a b = min (a * b) max_u64

abbrev pub rate_at : List SweepPoint → ℕ → ℕ
rate_at ps i = elim (get_elem? ps i) [ none ↦ 0 | some p ↦ p.rows_per_s ]

-- How the loop of `measure_ingest` ends: out of rungs, at a rung that could not be driven, or at
-- an error of the pass: a table that does not settle before a rung, or the burst of the first rung.
pub data LoopEnd : Type 0 where
  ended : Sweep → LoopEnd
  undrivable : ℕ → Sweep → LoopEnd
  failed : ℕ → LoopEnd
  out_of_fuel : LoopEnd

module _ (fl : Float) where
  open fl use {of_u64, add, mul, lt, decimal}

  -- `rows as f64 > best as f64 * (1.0 + INGEST_SWEEP_MARGIN)`
  pub improves : ℕ → ℕ → Bool
  improves best rows = lt (mul (of_u64 best) (add (decimal 1 1) (decimal 3 100))) (of_u64 rows)

  -- `self.points.len() == 1` is the test that there was no point before; `best` is in range then.
  pub observe : Sweep → ℕ → ℕ → Sweep
  observe s concurrency rows =
      let points = s.points ++ record { concurrency = concurrency; rows_per_s = rows } ∷ [] in
      let improved = length points == 1 || improves (rate_at points s.best) rows in
      let misses = if improved then 0 else s.misses + 1 in
      record {
        step = s.step;
        max_rung = s.max_rung;
        next =
            if leb patience misses || leb s.max_rung concurrency
            then none
            else some (min (saturating_mul concurrency s.step) s.max_rung);
        points = points;
        best = if improved then length points - 1 else s.best;
        misses = misses;
      }

  -- `settled c` says whether the table settled before the rung of `c` inserters, where `settle` gives
  -- its error otherwise; `burst c` is what the inserter measured there, `none` for its error.
  pub drive : ℕ → (ℕ → Bool) → (ℕ → Option ℕ) → Sweep → LoopEnd
  drive zero settled burst s = out_of_fuel
  drive (suc fuel) settled burst s = elim s.next [
    | none ↦ ended s
    | some c ↦ elim (settled c) [
      | false ↦ failed c
      | true ↦ elim (burst c) [
        | none ↦ if is_empty s.points then failed c else undrivable c s
        | some rows ↦ drive fuel settled burst (observe s c rows)
      ]
    ]
  ]

pub best_point : Sweep → Option SweepPoint
best_point s = get_elem? s.points s.best

pub still_climbing : Sweep → Bool
still_climbing s = not (is_empty s.points) && (s.best + 1 == length s.points)

-- What `measure_ingest` makes of the loop's end: a winning rung, or a refusal.
pub data Verdict : Type 0 where
  winner : SweepPoint → Verdict
  no_rungs : Verdict
  climbing : SweepPoint → Verdict
  rig_error : ℕ → Verdict
  unfinished : Verdict

conclude_sweep : Sweep → Option SweepPoint → Verdict
conclude_sweep s none = no_rungs
conclude_sweep s (some p) = if still_climbing s then climbing p else winner p

pub conclude : LoopEnd → Verdict
unfolding conclude_sweep best_point still_climbing
conclude (ended s) = conclude_sweep s (best_point s)
conclude (undrivable c s) = conclude_sweep s (best_point s)
conclude (failed c) = rig_error c
conclude out_of_fuel = unfinished
