-- ===== src/Driver/Hold/Drained.antt =====
-- The window of a drain.
use spate_benchmark.Prelude.{
  ℕ, suc, ◌+◌, ◌≤◌, ◌<◌, Bool, true, false, Option, none, some, List, Text, leb, ◌≡◌, ◌⊎◌, inl, inr,
  refl, ap, sym, subst, ◌∙◌, arith, Bool-cases,
}
use spate_benchmark.Driver.Hold.{
  the_drain, Refusal, Turn, held, Answers, dead_container, unless_dead, Drain, check_rows,
  drain_probe, drain_turn, hold_drain_window,
}
use spate_benchmark.Driver.Hold.Rounds.{
  Tells, IsEnded, Stops, Proceeds, run-held, run-ends, run-reaches,
}

module _ (F : Type 0) (names : List Text) (data_plane : Option Text) (ask : Answers)
    (expected : ℕ) where
  -- The rows are those of a reading, or none was read yet.
  abbrev pub IsRead : ℕ → Type 0
  IsRead rows = (rows ≡ 0) ⊎ ((j : ℕ) × (ask.rows_now j ≡ some rows))

  abbrev pub IsDrained : ℕ → Type 0
  IsDrained rows = (expected ≤ rows) × IsRead rows

  abbrev ReadState : Drain → Type 0
  ReadState st = IsRead st.rows

  check_rows-Tells :
      (over : Bool) (st : Drain)
      → ReadState st
      → Tells IsDrained ReadState (check_rows {F = F} names data_plane ask expected over st)
  unfolding check_rows
  check_rows-Tells over st h = elim (Bool-cases (leb expected st.rows)) [
    | inl e ↦ rw e (ground arith, h)
    | inr f ↦ rw f (elim (Bool-cases over) [ inl l ↦ rw l tt | inr l ↦ rw l h ])
  ]

  drain_probe-Tells :
      (over : Bool) (i : ℕ) (st : Drain) (o : Option ℕ)
      → ask.rows_now i ≡ o
      → ReadState st
      → Tells IsDrained ReadState (drain_probe {F = F} names data_plane ask expected over st o)
  unfolding drain_probe
  drain_probe-Tells over i st (some n) e h =
      check_rows-Tells over (record { rows = n; failures = 0 }) (inr (i, e))
  drain_probe-Tells over i st none e h = elim (Bool-cases (leb 5 (st.failures + 1))) [
    | inl m ↦ rw m tt
    | inr f ↦ rw f (check_rows-Tells over (record { rows = st.rows; failures = st.failures + 1 }) h)
  ]

  unless_dead-Tells :
      (dead : Option Text) (t : Turn (Refusal F) Drain ℕ)
      → Tells IsDrained ReadState t
      → Tells IsDrained ReadState (unless_dead names data_plane the_drain dead t)
  unfolding unless_dead
  unless_dead-Tells none t h = h
  unless_dead-Tells (some n) t h = tt

  drain_turn-Tells :
      (i : ℕ) (st : Drain)
      → ReadState st
      → Tells IsDrained ReadState (drain_turn {F = F} names data_plane ask expected i st)
  unfolding drain_turn
  drain_turn-Tells i st h =
      unless_dead-Tells (dead_container names (ask.is_alive i))
        (drain_probe names data_plane ask expected (ask.is_over i) st (ask.rows_now i))
        (drain_probe-Tells (ask.is_over i) i st (ask.rows_now i) refl h)

  -- A drain counts as finished only at a row count of at least what is expected, which the probe has
  -- read, or which is zero.
  pub hold_drain_window-IsDrained :
      (fuel rows : ℕ)
      → hold_drain_window {F = F} names data_plane ask expected fuel ≡ held rows
      → IsDrained rows
  unfolding hold_drain_window
  hold_drain_window-IsDrained fuel rows h =
      let (_, good) =
        run-held (drain_turn {F = F} names data_plane ask expected) (λ i st. ReadState st)
          (λ i rows. IsDrained rows) drain_turn-Tells fuel 0 (record { rows = 0; failures = 0 })
          rows (inl refl) h in
      good

  check_rows-Stops : (st : Drain) → Stops (check_rows {F = F} names data_plane ask expected true st)
  unfolding check_rows
  check_rows-Stops st = elim (Bool-cases (leb expected st.rows)) [
    | inl e ↦ rw e tt
    | inr f ↦ rw f tt
  ]

  drain_probe-Stops :
      (st : Drain) (o : Option ℕ)
      → Stops (drain_probe {F = F} names data_plane ask expected true st o)
  unfolding drain_probe
  drain_probe-Stops st (some n) = check_rows-Stops (record { rows = n; failures = 0 })
  drain_probe-Stops st none = elim (Bool-cases (leb 5 (st.failures + 1))) [
    | inl m ↦ rw m tt
    | inr f ↦ rw f (check_rows-Stops (record { rows = st.rows; failures = st.failures + 1 }))
  ]

  unless_dead-Stops :
      (dead : Option Text) (t : Turn (Refusal F) Drain ℕ)
      → Stops t
      → Stops (unless_dead names data_plane the_drain dead t)
  unfolding unless_dead
  unless_dead-Stops none t h = h
  unless_dead-Stops (some n) t h = tt

  drain_turn-Stops :
      (k : ℕ)
      → ask.is_over k ≡ true
      → (st : Drain) → Stops (drain_turn {F = F} names data_plane ask expected k st)
  unfolding drain_turn
  drain_turn-Stops k late st =
      unless_dead-Stops (dead_container names (ask.is_alive k))
        (drain_probe names data_plane ask expected (ask.is_over k) st (ask.rows_now k))
        (subst
          (λ over.
            Stops (drain_probe {F = F} names data_plane ask expected over st (ask.rows_now k)))
          (sym late) (drain_probe-Stops st (ask.rows_now k)))

  -- Where the deadline has passed in round `k`, the loop of a drain has ended by the end of it.
  pub hold_drain_window-ends :
      (k : ℕ)
      → ask.is_over k ≡ true
      → IsEnded (hold_drain_window {F = F} names data_plane ask expected (suc k))
  unfolding hold_drain_window
  hold_drain_window-ends k late =
      run-ends (drain_turn {F = F} names data_plane ask expected) k (drain_turn-Stops k late) k 0
        (record { rows = 0; failures = 0 }) (omega arith)

  drain_turn-read :
      (i m : ℕ) (st : Drain)
      → dead_container names (ask.is_alive i) ≡ none
      → ask.rows_now i ≡ some m
      → drain_turn {F = F} names data_plane ask expected i st
        ≡ check_rows names data_plane ask expected
            (ask.is_over i)
            (record { rows = m; failures = 0 })
  unfolding drain_turn unless_dead drain_probe
  drain_turn-read i m st d e =
      let probe = drain_probe {F = F} names data_plane ask expected (ask.is_over i) st in
      ap (λ dead. unless_dead {F = F} names data_plane the_drain dead (probe (ask.rows_now i))) d
      ∙ ap probe e

  module _ (k n : ℕ) (alive : (i : ℕ) → i ≤ k → dead_container names (ask.is_alive i) ≡ none)
      (read : (i : ℕ) → i ≤ k → (m : ℕ) × (ask.rows_now i ≡ some m))
      (on_time : (i : ℕ) → i < k → ask.is_over i ≡ false) (all_there : ask.rows_now k ≡ some n)
      (enough : expected ≤ n) where
    abbrev Enough : ℕ → Type 0
    Enough rows = expected ≤ rows

    read-Proceeds :
        (i : ℕ) (st : Drain)
        → i < k
        → Unit {0}
        → Proceeds Enough (λ t. Unit {0}) (drain_turn {F = F} names data_plane ask expected i st)
    unfolding check_rows
    read-Proceeds i st h _ =
        let (m, e) = read i (omega arith) in
        rw (drain_turn-read i m st (alive i (omega arith)) e, on_time i h) (ground arith)

    last-Proceeds :
        (st : Drain)
        → Unit {0}
        → Proceeds Enough (λ t. ⊥) (drain_turn {F = F} names data_plane ask expected k st)
    unfolding check_rows
    last-Proceeds st _ =
        let there : leb expected n ≡ true = ground arith in
        rw (drain_turn-read k n st (alive k (omega arith)) all_there, there) enough

    -- A drain finishes by the round `k` in which the probe reads at least the expected rows, where no
    -- container has died, every probe could be read and the deadline did not pass before.
    pub hold_drain_window-finishes :
        (rows : ℕ) × (hold_drain_window {F = F} names data_plane ask expected (suc k) ≡ held rows)
        × (expected ≤ rows)
    unfolding hold_drain_window
    hold_drain_window-finishes =
        run-reaches (drain_turn {F = F} names data_plane ask expected) k (λ i st. Unit {0}) Enough
          read-Proceeds last-Proceeds k 0 (record { rows = 0; failures = 0 }) (omega arith) tt
