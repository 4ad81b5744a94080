-- ===== src/ServerSide/Cost.antt =====
-- `summarise` of harness/src/serverside.rs and the rates of its result. The sums of counters are those
-- of a release build, modulo 2^64.
pub mod Accounts
pub mod Examples
use spate_benchmark.Prelude.{
  ℕ, zero, suc, ◌+◌, ◌%◌, ◌^◌, Bool, true, false, Option, none, some, List, [], ◌∷◌, map, Text,
  ◌&&◌, not, ◌==◌, if◌then◌else◌, filter, length, ltb, is_empty,
}
use spate_benchmark.Ceiling.Float.{Float}
use spate_benchmark.ServerSide.{
  Window, ServerSideError, no_attributed_queries, no_cpu_counters, async_inserts_not_attributable,
  Result, ok, err, RowType, is_exception, is_finish, is_start, ProfileCounters, add_u64, cpu_us,
  AttributedQuery,
}

pub record ServerSideCost (F : Type 0) : Type 0 where
  pub window : Window
  pub tables : List Text
  pub queries : ℕ
  pub queries_started : ℕ
  pub failed_queries : ℕ
  pub written_rows : ℕ
  pub inserted_rows : Option ℕ
  pub inserted_bytes : Option ℕ
  pub cpu_us : F
  pub user_us : F
  pub system_us : F
  pub real_us : Option F
  pub os_cpu_virtual_us : Option F
  pub os_cpu_wait_us : Option F
  pub queries_without_cpu : ℕ

-- `v.is_some_and(|n| n > 0)`
abbrev is_positive : Option ℕ → Bool
is_positive none = false
is_positive (some n) = ltb 0 n

abbrev is_none : Option ℕ → Bool
is_none none = true
is_none (some n) = false

abbrev pub is_async : AttributedQuery → Bool
is_async r = is_positive r.events.async_insert_query

abbrev pub lacks_cpu : AttributedQuery → Bool
lacks_cpu r = is_none (cpu_us r.events)

pub count : (AttributedQuery → Bool) → List AttributedQuery → ℕ
count p [] = 0
count p (r ∷ rs) = if p r then suc (count p rs) else count p rs

abbrev add_present : Option ℕ → Option ℕ → Option ℕ
add_present none total = total
add_present (some n) none = some n
add_present (some n) (some total) = some (add_u64 n total)

-- The sum of a counter over the rows that carry it; `none` where none does.
pub total : (ProfileCounters → Option ℕ) → List AttributedQuery → Option ℕ
total f [] = none
total f (r ∷ rs) = add_present (f r.events) (total f rs)

pub sum_written : List AttributedQuery → ℕ
sum_written [] = 0
sum_written (r ∷ rs) = add_u64 r.written_rows (sum_written rs)

module _ (fl : Float) where
  open fl use {F, of_u64, add, div, le, decimal}

  abbrev micros : Option ℕ → Option F
  micros none = none
  micros (some n) = some (of_u64 n)

  -- `micros(v).unwrap_or(0.0)`
  abbrev micros_or_0 : Option ℕ → F
  micros_or_0 none = decimal 0 1
  micros_or_0 (some n) = of_u64 n

  pub cost_of : List AttributedQuery → List AttributedQuery → List Text → Window → ServerSideCost F
  unfolding total sum_written
  cost_of rows finished tables window =
      let user_us = micros_or_0 (total (λ e. e.user_us) finished) in
      let system_us = micros_or_0 (total (λ e. e.system_us) finished) in
      record {
        window = window;
        tables = tables;
        queries = length finished;
        queries_started = count (λ r. is_start r.row_type) rows;
        failed_queries = count (λ r. is_exception r.row_type) rows;
        written_rows = sum_written finished;
        inserted_rows = total (λ e. e.inserted_rows) finished;
        inserted_bytes = total (λ e. e.inserted_bytes) finished;
        cpu_us = add user_us system_us;
        user_us = user_us;
        system_us = system_us;
        real_us = micros (total (λ e. e.real_us) finished);
        os_cpu_virtual_us = micros (total (λ e. e.os_cpu_virtual_us) finished);
        os_cpu_wait_us = micros (total (λ e. e.os_cpu_wait_us) finished);
        queries_without_cpu = count lacks_cpu finished;
      }

  pub summarise_finished :
      List AttributedQuery → List AttributedQuery → List Text → Window → Result (ServerSideCost F)
  unfolding cost_of
  summarise_finished rows finished tables window =
      if is_empty finished
      then err (no_attributed_queries tables window)
      else if ltb 0 (count is_async finished)
      then err (
          async_inserts_not_attributable (count is_async finished)
            (count (λ r. r.written_rows == 0) finished) (length finished))
      else if count lacks_cpu finished == length finished
      then err (no_cpu_counters (length finished))
      else ok (cost_of rows finished tables window)

  pub summarise : List AttributedQuery → List Text → Window → Result (ServerSideCost F)
  unfolding summarise_finished
  summarise rows tables window =
      summarise_finished rows (filter (λ r. is_finish r.row_type) rows) tables window

  pub cpu_us_per_written_row : ServerSideCost F → Result F
  cpu_us_per_written_row c =
      if c.written_rows == 0
      then err (no_attributed_queries c.tables c.window)
      else ok (div c.cpu_us (of_u64 c.written_rows))

  pub cpu_us_per_landed_row : ServerSideCost F → F → Result F
  cpu_us_per_landed_row c rows =
      if le rows (decimal 0 1)
      then err (no_attributed_queries c.tables c.window)
      else ok (div c.cpu_us rows)

  pub rows_per_insert : ServerSideCost F → F
  rows_per_insert c =
      if c.queries == 0 then decimal 0 1 else div (of_u64 c.written_rows) (of_u64 c.queries)
