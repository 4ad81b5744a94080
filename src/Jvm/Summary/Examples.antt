-- ===== src/Jvm/Summary/Examples.antt =====
-- A summary of the two pauses of a log.
use spate_benchmark.Prelude.{ℕ, some, codes, length, filter, ◌≡◌, refl, arith, All, ◌≤◌}
use spate_benchmark.Scaled.{thousandths}
use spate_benchmark.Jvm.{ok}
use spate_benchmark.Jvm.Log.Examples.{reading, log}
use spate_benchmark.Jvm.Summary.{
  GcSummary, peak, keep, within, choose, insert, sort, sum, worst, percentile, last_uptime, last,
  summary_of, summarised, summarise,
}
use spate_benchmark.Jvm.Summary.Counted.{counts, HasUptime, summarise-pauses, summarise-Measured}

abbrev summary : GcSummary ℕ
summary = record {
  pauses = 2;
  total_us = 2428000;
  max_us = 2417000;
  max_label = codes "Young (Normal)";
  p50_us = 11000;
  p99_us = 2417000;
  p999_us = 2417000;
  mean_us = 1214000;
  from_uptime_s = some 230;
  to_uptime_s = some 900;
  configured = log.heap;
  peak_committed_bytes = some 268435456;
  peak_occupancy_bytes = some 50331648;
  peak_live_bytes = some 20971520;
}

summarise_log : summarise thousandths reading log (some (0, 1000)) ≡ ok summary
unfolding summarise choose within keep insert sort sum worst percentile last_uptime last summary_of
    summarised peak
summarise_log = refl

summarise-pauses_example :
    (2 ≡ length (filter (counts thousandths reading (0, 1000)) log.pauses))
    × All (HasUptime thousandths reading) log.pauses
summarise-pauses_example = summarise-pauses thousandths reading log (0, 1000) summary summarise_log

summarise-Measured_example :
    (11000 ≤ 11000) × (11000 ≤ 2417000) × (11000 ≤ 2417000) × (11000 ≤ 2417000)
summarise-Measured_example =
    summarise-Measured thousandths reading (λ u. 11000 ≤ u) log (some (0, 1000)) summary
      summarise_log (omega arith) (omega arith, (omega arith, tt))
