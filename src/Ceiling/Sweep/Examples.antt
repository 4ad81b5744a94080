-- ===== src/Ceiling/Sweep/Examples.antt =====
-- Runs of the sweep, with whole thousandths for the floats.
use spate_benchmark.Prelude.{Bool, true, ◌==◌, ℕ, ◌-◌, ◌*◌, some, Option, ◌≡◌, refl, arith}
use spate_benchmark.Scaled.{thousandths}
use spate_benchmark.Ceiling.Sweep.{
  SweepPoint, failed, new, drive, conclude, winner, observe, improves,
}
use spate_benchmark.Ceiling.Sweep.Laws.{IsEnd, sweep_ends}
use spate_benchmark.Ceiling.Sweep.Best.{EndWins, winner_unbeaten}

-- A target that peaks at 8 inserters.
abbrev rate : ℕ → Option ℕ
rate c = some (1000 * c - 60 * c * c)

abbrev always : ℕ → Bool
always c = true

-- The table does not settle before the second rung.
unsettled : drive thousandths 9 (λ c. c == 2) rate (new 2 2 256) ≡ failed 4
unfolding drive observe improves new
unsettled = refl

peak : SweepPoint
peak = record { concurrency = 8; rows_per_s = 4160 }

peak_wins : conclude (drive thousandths 9 always rate (new 2 2 256)) ≡ winner peak
unfolding conclude drive observe improves new peak
peak_wins = refl

sweep_ends_example : IsEnd (drive thousandths 9 always rate (new 2 2 256))
sweep_ends_example = sweep_ends thousandths always rate 2 2 256 7 (omega arith) (omega arith)

winner_unbeaten_example :
    EndWins thousandths always rate peak (drive thousandths 9 always rate (new 2 2 256))
winner_unbeaten_example = winner_unbeaten thousandths always rate 9 2 2 256 peak_wins
