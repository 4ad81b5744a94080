-- ===== src/ServerSide/Cost/Examples.antt =====
-- Runs of the summary.
use spate_benchmark.Prelude.{ℕ, ◌+◌, ◌<◌, true, Option, none, some, List, [], ◌∷◌, codes, ◌≡◌, refl}
use spate_benchmark.Scaled.{thousandths}
use spate_benchmark.ServerSide.{
  Window, ok, err, async_inserts_not_attributable, RowType, start, finish,
  exception_while_processing, ProfileCounters, sum_halves, cpu_us, AttributedQuery,
}
use spate_benchmark.ServerSide.Cost.{
  ServerSideCost, count, total, sum_written, cost_of, summarise_finished, summarise,
}
use spate_benchmark.ServerSide.Cost.Accounts.{is_ok, summarise-accounts}

abbrev counters : Option ℕ → Option ℕ → Option ℕ → ProfileCounters
counters user_us system_us async_insert_query = record {
  user_us = user_us;
  system_us = system_us;
  real_us = none;
  os_cpu_virtual_us = none;
  os_cpu_wait_us = none;
  inserted_rows = some 500;
  inserted_bytes = none;
  async_insert_query = async_insert_query;
  async_insert_rows = none;
}

abbrev row : RowType → ℕ → ProfileCounters → AttributedQuery
row row_type written_rows events = record {
  row_type = row_type;
  written_rows = written_rows;
  duration_ms = 3;
  events = events;
}

abbrev pub rows : List AttributedQuery
rows =
    row start 0 (counters none none none)
    ∷ row finish 500 (counters (some 70) (some 5) none)
    ∷ row exception_while_processing 0 (counters (some 9) none none)
    ∷ row finish 500 (counters none none none)
    ∷ []

abbrev pub window : Window
window = record { from_ms = 1000; to_ms = 5000 }

abbrev pub cost : ServerSideCost ℕ
cost = record {
  window = window;
  tables = codes "default.sensor_events" ∷ [];
  queries = 2;
  queries_started = 1;
  failed_queries = 1;
  written_rows = 1000;
  inserted_rows = some 1000;
  inserted_bytes = none;
  cpu_us = 75000;
  user_us = 70000;
  system_us = 5000;
  real_us = none;
  os_cpu_virtual_us = none;
  os_cpu_wait_us = none;
  queries_without_cpu = 1;
}

pub summarise_rows :
    summarise thousandths rows (codes "default.sensor_events" ∷ []) window ≡ ok cost
unfolding summarise summarise_finished count cost_of total sum_written cpu_us sum_halves
summarise_rows = refl

-- An insert that wrote no row and reports no counter of an asynchronous insert gives a cost all the
-- same.
wrote_nothing :
    is_ok thousandths
      (summarise thousandths (row finish 0 (counters (some 70) none none) ∷ []) [] window)
    ≡ true
unfolding summarise summarise_finished count cost_of total sum_written cpu_us sum_halves
wrote_nothing = refl

async_insert :
    summarise thousandths (row finish 0 (counters (some 70) none (some 1)) ∷ []) [] window
    ≡ err (async_inserts_not_attributable 1 1 1)
unfolding summarise summarise_finished count
async_insert = refl

summarise-accounts_example :
    (cost.queries + cost.queries_started + cost.failed_queries ≡ 4)
    × (cost.queries_without_cpu < cost.queries)
summarise-accounts_example =
    summarise-accounts thousandths rows (codes "default.sensor_events" ∷ []) window cost
      summarise_rows
