-- ===== src/Driver/Quiesce.antt =====
-- `quiesce` of harness/src/driver.rs: waiting until the row count stops moving. The probe's answers are
-- a sequence, and so are the answers of the clock to `Instant::now() > deadline`.
pub mod Settled
mod Examples
use spate_benchmark.Prelude.{
  ℕ, zero, suc, ◌+◌, Bool, true, false, Option, none, some, ◌==◌, leb, if◌then◌else◌,
}

pub record Quiesced : Type 0 where
  pub rows : ℕ
  pub settled : Bool

pub data Outcome : Type 0 where
  ok : Quiesced → Outcome
  unreadable : ℕ → Outcome
  no_probe : Outcome
  out_of_fuel : Outcome

pub record State : Type 0 where
  pub stable : ℕ
  pub failures : ℕ
  pub prev : Option ℕ

abbrev pub start : State
start = record { stable = 0; failures = 0; prev = none }

-- What one poll does: return an error, leave the loop as settled, or fall through to the deadline.
pub data Step : Type 0 where
  refused : ℕ → Step
  settled_at : Option ℕ → Step
  polled : State → Step

-- `ROW_PROBE_MAX_FAILURES`
abbrev pub max_failures : ℕ
max_failures = 5

pub on_failure : ℕ → Option ℕ → Step
on_failure failures prev =
    if leb max_failures (failures + 1)
    then refused (failures + 1)
    else polled (record { stable = 0; failures = failures + 1; prev = prev })

-- The branch on `prev == Some(n)`.
pub on_count : ℕ → Option ℕ → ℕ → Step
on_count stable none n = polled (record { stable = 0; failures = 0; prev = some n })
on_count stable (some p) n =
    if p == n
    then (if leb 3 (suc stable)
        then settled_at (some p)
        else polled (record { stable = suc stable; failures = 0; prev = some n }))
    else polled (record { stable = 0; failures = 0; prev = some n })

pub on_probe : State → Option ℕ → Step
on_probe st none = on_failure st.failures st.prev
on_probe st (some n) = on_count st.stable st.prev n

-- After the loop.
pub finish : Option ℕ → Bool → Outcome
finish none settled = no_probe
finish (some rows) settled = ok (record { rows = rows; settled = settled })

-- What follows a poll; `rest` is the loop's next round.
pub after_poll : Bool → (State → Outcome) → Step → Outcome
after_poll late rest (refused failures) = unreadable failures
after_poll late rest (settled_at prev) = finish prev true
after_poll true rest (polled st) = finish st.prev false
after_poll false rest (polled st) = rest st

module _ (rows_now : ℕ → Option ℕ) (is_late : ℕ → Bool) where
  -- `i` is the number of the poll.
  pub loop : ℕ → ℕ → State → Outcome
  loop zero i st = out_of_fuel
  loop (suc fuel) i st = after_poll (is_late i) (loop fuel (suc i)) (on_probe st (rows_now i))

  pub quiesce : ℕ → Outcome
  quiesce fuel = loop fuel 0 start
