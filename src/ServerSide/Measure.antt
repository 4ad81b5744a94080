-- ===== src/ServerSide/Measure.antt =====
-- `measure` of harness/src/serverside.rs, with its query. The server is a parameter: what it answers to
-- a statement in the state it is in, or why it could not be reached, and the state it is in afterwards.
pub mod Accounted
mod Examples
use spate_benchmark.Prelude.{
  ℕ, ◌+◌, ◌<◌, Bool, true, false, not, Option, none, some, List, [], ◌∷◌, ◌++◌, map, Text, codes,
  if◌then◌else◌, filter, length, ◌≡◌, refl, ap, sym, ◌∙◌, arith, Bool-cases, inl, inr,
}
use spate_benchmark.Prelude.Strings.{trim, is_blank, contains, lines}
use spate_benchmark.Ceiling.Float.{Float}
use spate_benchmark.Corpus.Decimal.{decimal}
use spate_benchmark.ServerSide.{
  Window, ServerSideError, transport, server_exception, Result, ok, err, AttributedQuery,
}
use spate_benchmark.ServerSide.Response.{parse_response}
use spate_benchmark.ServerSide.Cost.{ServerSideCost, summarise}

-- What `try_clickhouse_sql` returns.
pub data Answer : Type 0 where
  body : Text → Answer
  unreachable : Text → Answer

-- `try_clickhouse_sql` for one host, port, user and password, on the states `S` of the server.
abbrev pub Server : Type 0 → Type 0
Server S = Text → S → Answer × S

-- `names.join(", ")`
pub join_names : List Text → Text
join_names [] = []
join_names (n ∷ []) = n
join_names (n ∷ m ∷ ns) = n ++ codes ", " ++ join_names (m ∷ ns)

abbrev quoted : Text → Text
quoted s = (b'\'' ∷ s) ++ b'\'' ∷ []

abbrev counters : List Text
counters =
    codes "UserTimeMicroseconds"
    ∷ codes "SystemTimeMicroseconds"
    ∷ codes "RealTimeMicroseconds"
    ∷ codes "OSCPUVirtualTimeMicroseconds"
    ∷ codes "OSCPUWaitMicroseconds"
    ∷ codes "InsertedRows"
    ∷ codes "InsertedBytes"
    ∷ codes "AsyncInsertQuery"
    ∷ codes "AsyncInsertRows"
    ∷ []

pub attribution_sql : List Text → Window → Bool → Text
unfolding join_names
attribution_sql tables window forwarded_inserts =
    let from = decimal window.from_ms in
    let to = decimal window.to_ms in
    let initial =
      if forwarded_inserts
      then codes "AND NOT is_initial_query "
      else codes "AND is_initial_query " in
    codes "SELECT type, written_rows, query_duration_ms, mapFilter((k, v) -> k IN ("
    ++ join_names (map quoted counters)
    ++ codes
        "), ProfileEvents) FROM system.query_log WHERE event_date >= toDate(fromUnixTimestamp64Milli("
    ++ from
    ++ codes ")) - 1 AND event_date <= toDate(fromUnixTimestamp64Milli("
    ++ to
    ++ codes ")) + 1 AND query_start_time_microseconds >= fromUnixTimestamp64Milli("
    ++ from
    ++ codes ") AND query_start_time_microseconds < fromUnixTimestamp64Milli("
    ++ to
    ++ codes ") AND query_kind = 'Insert' "
    ++ initial
    ++ codes "AND hasAny(tables, ["
    ++ join_names (map quoted tables)
    ++ codes "]) ORDER BY event_time_microseconds FORMAT TSV"

abbrev pub flush_logs_sql : Text
flush_logs_sql = codes "SYSTEM FLUSH LOGS"

pub flushed : Answer → Option ServerSideError
flushed (unreachable e) = some (transport e)
flushed (body b) =
    if contains (codes "DB::Exception") b then some (server_exception (trim b)) else none

module _ {S : Type 0} (server : Server S) where
  -- `none` where the logs were flushed, and the state that the statement leaves.
  pub flush_logs : S → Option ServerSideError × S
  unfolding flushed
  flush_logs s = let (answer, after) = server flush_logs_sql s in (flushed answer, after)

module _ (fl : Float) where
  open fl use {F}

  pub summarise_read :
      Result (List AttributedQuery) → List Text → Window → Result (ServerSideCost F)
  summarise_read (err e) tables window = err e
  summarise_read (ok rows) tables window = summarise fl rows tables window

  pub read_answer : Answer → List Text → Window → Result (ServerSideCost F)
  unfolding summarise_read
  read_answer (unreachable e) tables window = err (transport e)
  read_answer (body b) tables window = summarise_read (parse_response b) tables window

  module _ {S : Type 0} (server : Server S) where
    -- The rest of `measure`, behind the flush and in the state that it left.
    pub measure_flushed :
        Option ServerSideError → List Text → Window → Bool → S → Result (ServerSideCost F) × S
    unfolding read_answer
    measure_flushed (some e) tables window forwarded_inserts s = (err e, s)
    measure_flushed none tables window forwarded_inserts s =
        let (answer, after) = server (attribution_sql tables window forwarded_inserts) s in
        (read_answer answer tables window, after)

    pub measure : List Text → Window → Bool → S → Result (ServerSideCost F) × S
    unfolding measure_flushed
    measure tables window forwarded_inserts s =
        let (error, flushed_state) = flush_logs server s in
        measure_flushed error tables window forwarded_inserts flushed_state
