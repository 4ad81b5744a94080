-- ===== src/Driver/Hold.antt =====
-- `hold_drain_window` and `hold_sustained_window` of harness/src/driver.rs: how long the window of an arm
-- is held. What the containers, the row count and the clock answer in each round is a sequence; the logs
-- that a refusal carries are left out.
pub mod Rounds
pub mod Drained
pub mod Sustained
mod Examples
use spate_benchmark.Prelude.{
  ℕ, zero, suc, ◌+◌, Bool, true, false, not, Option, none, some, List, Text, text_eq, find, ltb,
  leb, if◌then◌else◌,
}
use spate_benchmark.Ceiling.Float.{Float}

pub data During : Type 0 where
  the_drain : During
  the_warm_up : During
  the_window : During

pub data Refusal (F : Type 0) : Type 0 where
  died : Bool → Text → During → Refusal F
  unreadable : ℕ → ℕ → Refusal F
  drain_late : ℕ → ℕ → Refusal F
  not_consuming : Option ℕ → Refusal F
  window_unreadable : ℕ → Refusal F
  undelivered : ℕ → ℕ → Refusal F
  short_offer : F → F → Refusal F

-- What one round of a loop does: return an error, leave the loop, or go on.
pub data Turn (R S A : Type 0) : Type 0 where
  refuse : R → Turn R S A
  finish : A → Turn R S A
  go_on : S → Turn R S A

pub data Outcome (R A : Type 0) : Type 0 where
  held : A → Outcome R A
  refused : R → Outcome R A
  out_of_fuel : Outcome R A

module _ {R S A : Type 0} where
  pub after : (S → Outcome R A) → Turn R S A → Outcome R A
  after rest (refuse r) = refused r
  after rest (finish a) = held a
  after rest (go_on s) = rest s

  -- A loop from round `i`.
  pub run : (ℕ → S → Turn R S A) → ℕ → ℕ → S → Outcome R A
  unfolding after
  run turn zero i s = out_of_fuel
  run turn (suc fuel) i s = after (run turn fuel (suc i)) (turn i s)

-- What a loop asks in each round; `is_over` is the comparison with its clock.
pub record Answers : Type 0 where
  pub is_alive : ℕ → Text → Bool
  pub rows_now : ℕ → Option ℕ
  pub is_over : ℕ → Bool

-- `ROW_PROBE_MAX_FAILURES` and `SUSTAINED_WARMUP_POLLS`
abbrev pub max_failures : ℕ
max_failures = 5

abbrev pub warmup_polls : ℕ
warmup_polls = 3

abbrev is_named : Option Text → Text → Bool
is_named none n = false
is_named (some d) n = text_eq d n

-- The first container that is not alive, and whether it is the data plane's.
pub dead_container : List Text → (Text → Bool) → Option Text
dead_container names alive = find (λ n. not (alive n)) names

-- The rows of the last reading, and the failures in a row since.
pub record Drain : Type 0 where
  pub rows : ℕ
  pub failures : ℕ

-- The polls in a row that saw the count grow, and the reading before.
pub record WarmUp : Type 0 where
  pub advancing : ℕ
  pub prev : Option ℕ

abbrev pub is_growing : Option ℕ → Option ℕ → Bool
is_growing (some a) (some b) = ltb a b
is_growing _ _ = false

module _ {F : Type 0} (names : List Text) (data_plane : Option Text) where
  -- The rest of a round, where no container is dead.
  pub unless_dead :
      {S A : Type 0} → During → Option Text → Turn (Refusal F) S A → Turn (Refusal F) S A
  unless_dead during none rest = rest
  unless_dead during (some n) rest = refuse (died (is_named data_plane n) n during)

  module _ (ask : Answers) (expected : ℕ) where
    -- The end of a round of the drain.
    pub check_rows : Bool → Drain → Turn (Refusal F) Drain ℕ
    check_rows over st =
        if leb expected st.rows
        then finish st.rows
        else if over
        then refuse (drain_late st.rows expected)
        else go_on st

    pub drain_probe : Bool → Drain → Option ℕ → Turn (Refusal F) Drain ℕ
    unfolding check_rows
    drain_probe over st (some n) = check_rows over (record { rows = n; failures = 0 })
    drain_probe over st none =
        if leb max_failures (st.failures + 1)
        then refuse (unreadable (st.failures + 1) st.rows)
        else check_rows over (record { rows = st.rows; failures = st.failures + 1 })

    pub drain_turn : ℕ → Drain → Turn (Refusal F) Drain ℕ
    unfolding drain_probe unless_dead
    drain_turn i st =
        unless_dead the_drain (dead_container names (ask.is_alive i))
          (drain_probe (ask.is_over i) st (ask.rows_now i))

    pub hold_drain_window : ℕ → Outcome (Refusal F) ℕ
    hold_drain_window fuel = run drain_turn fuel 0 (record { rows = 0; failures = 0 })

  module _ (ask : Answers) where
    pub check_deadline : Bool → WarmUp → Turn (Refusal F) WarmUp ℕ
    check_deadline over st = if over then refuse (not_consuming st.prev) else go_on st

    -- `now` is what the window opens on.
    pub warm_probe : Bool → ℕ → WarmUp → Option ℕ → Turn (Refusal F) WarmUp ℕ
    unfolding check_deadline
    warm_probe over i st now =
        if is_growing st.prev now
        then (if leb warmup_polls (suc st.advancing)
            then finish i
            else check_deadline over (record { advancing = suc st.advancing; prev = now }))
        else check_deadline over (record { advancing = 0; prev = now })

    pub warm_turn : ℕ → WarmUp → Turn (Refusal F) WarmUp ℕ
    unfolding warm_probe unless_dead
    warm_turn i st =
        unless_dead the_warm_up (dead_container names (ask.is_alive i))
          (warm_probe (ask.is_over i) i st (ask.rows_now i))

    pub window_probe : ℕ → Option ℕ → Turn (Refusal F) ℕ Unit
    window_probe failures (some n) = go_on 0
    window_probe failures none =
        if leb max_failures (failures + 1)
        then refuse (window_unreadable (failures + 1))
        else go_on (failures + 1)

    -- The loop's condition stands before the round.
    pub window_turn : ℕ → ℕ → Turn (Refusal F) ℕ Unit
    unfolding window_probe unless_dead
    window_turn i failures =
        if ask.is_over i
        then finish tt
        else unless_dead the_window (dead_container names (ask.is_alive i))
            (window_probe failures (ask.rows_now i))

-- What of a generator's report is checked.
pub record LoadReport (F : Type 0) : Type 0 where
  pub sent : ℕ
  pub failed : ℕ
  pub achieved_share : F
  pub max_schedule_lag_ms : F

module _ (fl : Float) (names : List Text) (data_plane : Option Text) where
  pub check_report : LoadReport fl.F → Outcome (Refusal fl.F) (LoadReport fl.F)
  check_report r =
      if ltb 0 r.failed
      then refused (undelivered r.failed r.sent)
      else if fl.lt r.achieved_share (fl.decimal 99 100)
      then refused (short_offer r.achieved_share r.max_schedule_lag_ms)
      else held r

  after_window :
      LoadReport fl.F → Outcome (Refusal fl.F) Unit → Outcome (Refusal fl.F) (LoadReport fl.F)
  after_window r (held u) = check_report r
  after_window r (refused why) = refused why
  after_window r out_of_fuel = out_of_fuel

  after_warm_up :
      Answers
      → LoadReport fl.F
      → ℕ
      → Outcome (Refusal fl.F) ℕ
      → Outcome (Refusal fl.F) (LoadReport fl.F)
  after_warm_up window r fuel (held i) =
      after_window r (run (window_turn names data_plane window) fuel 0 0)
  after_warm_up window r fuel (refused why) = refused why
  after_warm_up window r fuel out_of_fuel = out_of_fuel

  -- The warm-up, after the reading before it; the window; and the report of the generator.
  pub hold_sustained_window :
      Answers → Option ℕ → Answers → LoadReport fl.F → ℕ → Outcome (Refusal fl.F) (LoadReport fl.F)
  unfolding after_warm_up after_window check_report run
  hold_sustained_window warm_up first window r fuel =
      after_warm_up window r fuel
        (run (warm_turn names data_plane warm_up) fuel 0 (record { advancing = 0; prev = first }))
