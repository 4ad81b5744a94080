-- ===== src/ServerSide.antt =====
-- harness/src/serverside.rs: what an arm's inserts cost the server. The data; ServerSide/Span has the
-- window, ServerSide/Events and ServerSide/Response the reading of the server's answer, and
-- ServerSide/Cost the summary. A message of an error is the data that it shows.
pub mod Span
pub mod Events
pub mod Response
pub mod Cost
pub mod Measure
use spate_benchmark.Prelude.{
  ℕ, zero, suc, ◌+◌, ◌-◌, ◌*◌, ◌%◌, ◌^◌, min, max, Bool, true, false, Option, none, some, List, [],
  ◌∷◌, ◌++◌, map, Text, codes, ◌&&◌, ◌||◌, not, ◌==◌, if◌then◌else◌, any, all, filter, length, ltb,
  leb, is_empty, text_eq,
}

pub record Window : Type 0 where
  pub from_ms : ℕ
  pub to_ms : ℕ

-- What was wrong with a line.
pub data Reason : Type 0 where
  not_braced : Reason
  no_colon : Reason
  not_quoted : Reason
  not_number : Reason
  wrong_fields : Reason
  unknown_type : Reason
  bad_written_rows : Reason
  bad_duration : Reason

pub data ServerSideError : Type 0 where
  empty_window : ℕ → ℕ → ServerSideError
  transport : Text → ServerSideError
  server_exception : Text → ServerSideError
  malformed : Text → Reason → ServerSideError
  no_attributed_queries : List Text → Window → ServerSideError
  no_cpu_counters : ℕ → ServerSideError
  async_inserts_not_attributable : ℕ → ℕ → ℕ → ServerSideError

pub data Result {ℓ} (A : Type ℓ) : Type ℓ where
  ok : A → Result A
  err : ServerSideError → Result A

pub qualify : Text → Text → Text
qualify database table = database ++ b'.' ∷ table

pub data RowType : Type 0 where
  start : RowType
  finish : RowType
  exception_before_start : RowType
  exception_while_processing : RowType

abbrev pub is_exception : RowType → Bool
is_exception exception_before_start = true
is_exception exception_while_processing = true
is_exception _ = false

abbrev pub is_finish : RowType → Bool
is_finish finish = true
is_finish _ = false

abbrev pub is_start : RowType → Bool
is_start start = true
is_start _ = false

pub record ProfileCounters : Type 0 where
  pub user_us : Option ℕ
  pub system_us : Option ℕ
  pub real_us : Option ℕ
  pub os_cpu_virtual_us : Option ℕ
  pub os_cpu_wait_us : Option ℕ
  pub inserted_rows : Option ℕ
  pub inserted_bytes : Option ℕ
  pub async_insert_query : Option ℕ
  pub async_insert_rows : Option ℕ

-- `+` of `u64`, which wraps in a release build
abbrev pub add_u64 : ℕ → ℕ → ℕ
add_u64 a b = (a + b) % 2 ^ 64

pub sum_halves : Option ℕ → Option ℕ → Option ℕ
sum_halves none none = none
sum_halves (some u) none = some u
sum_halves none (some s) = some s
sum_halves (some u) (some s) = some (add_u64 u s)

pub cpu_us : ProfileCounters → Option ℕ
unfolding sum_halves
cpu_us c = sum_halves c.user_us c.system_us

pub record AttributedQuery : Type 0 where
  pub row_type : RowType
  pub written_rows : ℕ
  pub duration_ms : ℕ
  pub events : ProfileCounters
