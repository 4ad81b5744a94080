-- ===== src/Results.antt =====
-- harness/src/results.rs: where a record stands in the archive. A path is its parts.
mod Years
pub mod Months
mod Examples
use spate_benchmark.Prelude.{
  ℕ, zero, suc, ◌+◌, ◌-◌, ◌*◌, ◌/◌, ◌%◌, List, [], ◌∷◌, ◌++◌, Text, codes, if◌then◌else◌, ltb, leb,
  length,
}
use spate_benchmark.Corpus.Decimal.{decimal}
use spate_benchmark.Report.{Trigger, bars_publication}

-- `TUNING_DIR`
abbrev pub tuning_dir : Text
tuning_dir = codes "tuning"

pub root_for : List Text → Trigger → List Text
root_for repo_root trigger =
    repo_root ++ (if bars_publication trigger then tuning_dir else codes "results") ∷ []

-- The year and the month of `year_month`; the days since 1970 are not negative, so that the Euclidean
-- division is the division of natural numbers, and each difference is taken from what is larger.
pub day_of_era : ℕ → ℕ
day_of_era ts_ms = (ts_ms / 86400000 + 719468) % 146097

pub year_of_era : ℕ → ℕ
year_of_era doe = (doe - doe / 1460 + doe / 36524 - doe / 146096) / 365

pub day_of_year : ℕ → ℕ
unfolding year_of_era
day_of_year doe = let yoe = year_of_era doe in doe - (365 * yoe + yoe / 4 - yoe / 100)

pub month_of : ℕ → ℕ
month_of doy = let mp = (5 * doy + 2) / 153 in if ltb mp 10 then mp + 3 else mp - 9

pub year_and_month : ℕ → ℕ × ℕ
unfolding day_of_era year_of_era day_of_year month_of
year_and_month ts_ms =
    let doe = day_of_era ts_ms in
    let y = year_of_era doe + (ts_ms / 86400000 + 719468) / 146097 * 400 in
    let m = month_of (day_of_year doe) in (if leb m 2 then y + 1 else y, m)

-- `zeros(k) ++ s`
pub zeros : ℕ → Text → Text
zeros zero s = s
zeros (suc k) s = b'0' ∷ zeros k s

-- `{n:0w$}`
abbrev pad : ℕ → Text → Text
pad w s = zeros (w - length s) s

pub year_month : ℕ → Text
unfolding zeros year_and_month
year_month ts_ms =
    let (y, m) = year_and_month ts_ms in pad 4 (decimal y) ++ b'-' ∷ pad 2 (decimal m)

pub path_for : List Text → Text → Text → ℕ → List Text
unfolding year_month
path_for root env_id entrant ts_ms =
    root ++ env_id ∷ entrant ∷ (year_month ts_ms ++ codes ".jsonl") ∷ []
