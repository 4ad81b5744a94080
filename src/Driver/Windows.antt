-- ===== src/Driver/Windows.antt =====
-- The interval that the samplers covered, and the arithmetic of a sustained run: harness/src/driver.rs.
pub mod Agrees
mod Examples
use spate_benchmark.Prelude.{
  ℕ, ◌+◌, ◌-◌, ◌*◌, ◌/◌, ◌^◌, min, max, Bool, true, false, Option, none, some, List, [], ◌∷◌, ◌++◌,
  Text, codes, if◌then◌else◌, filter, ltb,
}
use spate_benchmark.Sampler.{Sample, Samples, readable, last_of}

-- The readable rows of each container, with the ends so far: a container without one gives none.
pub ends_of : ℕ → ℕ → List (List Sample) → Option (ℕ × ℕ)
ends_of from to [] = some (from, to)
ends_of from to ([] ∷ rest) = none
ends_of from to ((first ∷ ss) ∷ rest) =
    ends_of (min from first.t_ms) (max to ((last_of first ss).t_ms)) rest

pub readable_rows : {F : Type 0} → List (Text × Samples F) → List (List Sample)
readable_rows [] = []
readable_rows ((name, s) ∷ rest) = filter readable s.rows ∷ readable_rows rest

-- `(from < to).then_some((from, to))`
pub forwards : Option (ℕ × ℕ) → Option (ℕ × ℕ)
forwards none = none
forwards (some (from, to)) = if ltb from to then some (from, to) else none

pub sampler_window_ms : {F : Type 0} → List (Text × Samples F) → Option (ℕ × ℕ)
unfolding forwards
sampler_window_ms costs = forwards (ends_of (2 ^ 64 - 1) 0 (readable_rows costs))

-- `saturating_add`, `saturating_mul` and `div_ceil` of `u64`
abbrev saturating_add : ℕ → ℕ → ℕ
saturating_add a b = min (a + b) (2 ^ 64 - 1)

abbrev saturating_mul : ℕ → ℕ → ℕ
saturating_mul a b = min (a * b) (2 ^ 64 - 1)

abbrev pub div_ceil : ℕ → ℕ → ℕ
div_ceil a b = (a + (b - 1)) / b

-- `SUSTAINED_WARMUP_BUDGET_S`
abbrev pub warmup_budget_s : ℕ
warmup_budget_s = 45

-- `PRODUCER_THREAD_MSGS_PER_S`
abbrev pub thread_msgs_per_s : ℕ
thread_msgs_per_s = 60000

pub projected_topic_bytes : ℕ → ℕ → ℕ → ℕ → ℕ → ℕ
projected_topic_bytes existing_msgs rate window_s runs message_bytes =
    let per_run = saturating_mul rate (saturating_add window_s warmup_budget_s) in
    saturating_mul (saturating_add existing_msgs (saturating_mul per_run runs)) message_bytes

pub producer_threads : ℕ → ℕ
producer_threads offered_msgs_per_s = max (div_ceil offered_msgs_per_s thread_msgs_per_s) 1

unfoldable pub sustained_topic : Text → Text
sustained_topic base = base ++ codes "-sustained"
