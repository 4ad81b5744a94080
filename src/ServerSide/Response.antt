-- ===== src/ServerSide/Response.antt =====
-- `parse_response` of harness/src/serverside.rs: the rows of the server's answer.
pub mod Lengths
pub mod Examples
use spate_benchmark.Prelude.{
  ℕ, zero, suc, Bool, true, false, Option, none, some, List, [], ◌∷◌, Text, codes, if◌then◌else◌,
  text_eq,
}
use spate_benchmark.Prelude.Strings.{trim, is_blank, parse_u64, contains, lines}
use spate_benchmark.Selector.Split.{split_once}
use spate_benchmark.ServerSide.{
  Reason, wrong_fields, unknown_type, bad_written_rows, bad_duration, ServerSideError,
  server_exception, malformed, Result, ok, err, RowType, start, finish, exception_before_start,
  exception_while_processing, ProfileCounters, AttributedQuery,
}
use spate_benchmark.ServerSide.Events.{parse_profile_events}

-- `RowType::parse`
pub parse_row_type : Text → Option RowType
parse_row_type s =
    if text_eq s (codes "QueryStart")
    then some start
    else if text_eq s (codes "QueryFinish")
    then some finish
    else if text_eq s (codes "ExceptionBeforeStart")
    then some exception_before_start
    else if text_eq s (codes "ExceptionWhileProcessing")
    then some exception_while_processing
    else none

-- `line.splitn(n + 1, '\t')`
pub splitn : ℕ → Text → List Text
splitn zero s = s ∷ []
splitn (suc n) s = elim (split_once 9 s) [ none ↦ s ∷ [] | some (a, b) ↦ a ∷ splitn n b ]

query :
    Text → Option RowType → Option ℕ → Option ℕ → Result ProfileCounters → Result AttributedQuery
query line none written duration events = err (malformed line unknown_type)
query line (some t) none duration events = err (malformed line bad_written_rows)
query line (some t) (some w) none events = err (malformed line bad_duration)
query line (some t) (some w) (some d) (err e) = err e
query line (some t) (some w) (some d) (ok events) =
    ok (record { row_type = t; written_rows = w; duration_ms = d; events = events })

query_of : Text → List Text → Result AttributedQuery
unfolding query
query_of line (t ∷ w ∷ d ∷ e ∷ []) =
    query line (parse_row_type t) (parse_u64 (trim w)) (parse_u64 (trim d)) (parse_profile_events e)
query_of line _ = err (malformed line wrong_fields)

pub parse_line : Text → Result AttributedQuery
unfolding query_of splitn
parse_line line = query_of line (splitn 3 line)

-- The rest of the answer is read after the row, and the first error ends it.
abbrev pub cons_row :
    Result AttributedQuery → Result (List AttributedQuery) → Result (List AttributedQuery)
cons_row (err e) rest = err e
cons_row (ok r) (err e) = err e
cons_row (ok r) (ok rs) = ok (r ∷ rs)

pub parse_lines : List Text → Result (List AttributedQuery)
parse_lines [] = ok []
parse_lines (line ∷ rest) =
    let more = parse_lines rest in if is_blank line then more else cons_row (parse_line line) more

pub parse_response : Text → Result (List AttributedQuery)
unfolding parse_lines
parse_response body =
    if contains (codes "DB::Exception") body
    then err (server_exception (trim body))
    else parse_lines (lines body)
