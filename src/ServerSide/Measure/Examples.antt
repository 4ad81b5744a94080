-- ===== src/ServerSide/Measure/Examples.antt =====
-- A measurement of one answer.
use spate_benchmark.Prelude.{
  Bool, false, true, none, List, [], ◌∷◌, Text, codes, text_eq, if◌then◌else◌, ◌≡◌, ap, ◌∙◌,
}
use spate_benchmark.Prelude.Strings.{contains, strip_prefix}
use spate_benchmark.Scaled.{thousandths}
use spate_benchmark.ServerSide.{ok}
use spate_benchmark.ServerSide.Response.Examples.{answer, parse_answer}
use spate_benchmark.ServerSide.Cost.Examples.{window, cost, summarise_rows}
use spate_benchmark.ServerSide.Measure.{
  Server, body, attribution_sql, flush_logs, flush_logs_sql, flushed, summarise_read, read_answer,
  measure_flushed, measure,
}
use spate_benchmark.ServerSide.Measure.Accounted.{Accounts, measure-Accounts}

-- A server whose log is empty until it is flushed: the state says whether it was.
abbrev server : Server Bool
server sql s =
    if text_eq sql flush_logs_sql then (body [], true) else (body (if s then answer else []), s)

abbrev tables : List Text
tables = codes "default.sensor_events" ∷ []

measured : (measure thousandths server tables window false false).0 ≡ ok cost
unfolding measure measure_flushed flush_logs flushed read_answer summarise_read contains
    strip_prefix attribution_sql text_eq
measured = ap (λ r. summarise_read thousandths r tables window) parse_answer ∙ summarise_rows

measure-Accounts_example :
    (flushed ((server flush_logs_sql false).0) ≡ none)
    × ((b : Text) × ((server
            (attribution_sql tables window false)
            ((server flush_logs_sql false).1)).0
          ≡ body b)
        × Accounts thousandths b cost)
measure-Accounts_example =
    measure-Accounts thousandths server tables window false false cost measured
