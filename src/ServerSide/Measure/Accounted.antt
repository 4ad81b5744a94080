-- ===== src/ServerSide/Measure/Accounted.antt =====
-- What a measured cost accounts for, from the server's answer on.
use spate_benchmark.Prelude.{◌+◌, ◌<◌, Bool, Option, none, some, List, Text, length, ◌≡◌, refl, ◌∙◌}
use spate_benchmark.Ceiling.Float.{Float}
use spate_benchmark.ServerSide.{Window, ServerSideError, Result, ok, err, AttributedQuery}
use spate_benchmark.ServerSide.Response.{parse_response}
use spate_benchmark.ServerSide.Response.Lengths.{rows_of, parse_response-length}
use spate_benchmark.ServerSide.Cost.{ServerSideCost}
use spate_benchmark.ServerSide.Cost.Accounts.{summarise-accounts}
use spate_benchmark.ServerSide.Measure.{
  Answer, Server, body, unreachable, attribution_sql, flush_logs_sql, flushed, flush_logs,
  summarise_read, read_answer, measure_flushed, measure,
}

module _ (fl : Float) where
  open fl use {F}

  -- What a cost accounts for, where the answer is this text.
  abbrev pub Accounts : Text → ServerSideCost F → Type 0
  Accounts b c =
      (c.queries + c.queries_started + c.failed_queries ≡ length (rows_of b))
      × (c.queries_without_cpu < c.queries)

  read-Accounts :
      (b : Text) (r : Result (List AttributedQuery)) (tables : List Text) (window : Window)
      (c : ServerSideCost F)
      → parse_response b ≡ r
      → summarise_read fl r tables window ≡ ok c
      → Accounts b c
  unfolding summarise_read
  read-Accounts b (err e) tables window c p h = cc
  read-Accounts b (ok rows) tables window c p h =
      let (n, k) = summarise-accounts fl rows tables window c h in
      (n ∙ parse_response-length b rows p, k)

  answer-Accounts :
      (a : Answer) (tables : List Text) (window : Window) (c : ServerSideCost F)
      → read_answer fl a tables window ≡ ok c
      → (b : Text) × (a ≡ body b) × Accounts b c
  unfolding read_answer
  answer-Accounts (unreachable e) tables window c h = cc
  answer-Accounts (body b) tables window c h =
      (b, refl, read-Accounts b (parse_response b) tables window c refl h)

  module _ {S : Type 0} (server : Server S) where
    flushed-Accounts :
        (o : Option ServerSideError) (tables : List Text) (window : Window) (forwarded : Bool)
        (s : S) (c : ServerSideCost F)
        → (measure_flushed fl server o tables window forwarded s).0 ≡ ok c
        → (o ≡ none)
          × ((b : Text) × ((server (attribution_sql tables window forwarded) s).0 ≡ body b)
              × Accounts b c)
    unfolding measure_flushed
    flushed-Accounts (some e) tables window forwarded s c h = cc
    flushed-Accounts none tables window forwarded s c h = (
      refl,
      answer-Accounts ((server (attribution_sql tables window forwarded) s).0) tables window c h,
    )

    -- Where a cost is measured, the statement that flushes the logs was sent first and succeeded; to the
    -- query, sent to the server in the state behind that flush, it answered with a text of which each
    -- line that is not blank counts once, as a finished, a started or a failed insert; and some finished
    -- insert reports its CPU time.
    pub measure-Accounts :
        (tables : List Text) (window : Window) (forwarded : Bool) (s : S) (c : ServerSideCost F)
        → (measure fl server tables window forwarded s).0 ≡ ok c
        → (flushed ((server flush_logs_sql s).0) ≡ none)
          × ((b : Text) × ((server
                  (attribution_sql tables window forwarded)
                  ((server flush_logs_sql s).1)).0
                ≡ body b)
              × Accounts b c)
    unfolding measure flush_logs
    measure-Accounts tables window forwarded s c h =
        flushed-Accounts (flushed ((server flush_logs_sql s).0)) tables window forwarded
          ((server flush_logs_sql s).1) c h
