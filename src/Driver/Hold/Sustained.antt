-- ===== src/Driver/Hold/Sustained.antt =====
-- The window of a sustained run.
use spate_benchmark.Prelude.{
  ℕ, zero, suc, ◌+◌, ◌≤◌, Bool, true, false, Option, none, some, List, Text, leb, if◌then◌else◌,
  ◌≡◌, inl, inr, refl, ap, sym, ◌∙◌, arith, Bool-cases,
}
use spate_benchmark.Ceiling.Float.{Float}
use spate_benchmark.Driver.Hold.{
  During, the_warm_up, the_window, Refusal, Turn, finish, Outcome, held, refused, out_of_fuel, run,
  Answers, dead_container, unless_dead, WarmUp, is_growing, check_deadline, warm_probe, warm_turn,
  window_probe, window_turn, LoadReport, check_report, after_window, after_warm_up,
  hold_sustained_window,
}
use spate_benchmark.Driver.Hold.Rounds.{Tells, run-held}

-- The reading before round `i`: the one before the warm-up, and then that of the round before.
abbrev pub reading : Answers → Option ℕ → ℕ → Option ℕ
reading ask first zero = first
reading ask first (suc j) = ask.rows_now j

-- The last `s` rounds before round `i` each read more rows than the reading before.
abbrev pub Grew : Answers → Option ℕ → ℕ → ℕ → Type 0
Grew ask first zero i = Unit
Grew ask first (suc s) zero = ⊥
Grew ask first (suc s) (suc i) =
    (is_growing (reading ask first i) (ask.rows_now i) ≡ true) × Grew ask first s i

Grew-shorter :
    (ask : Answers) (first : Option ℕ) (s t i : ℕ) → s ≤ t → Grew ask first t i → Grew ask first s i
Grew-shorter ask first zero t i h g = tt
Grew-shorter ask first (suc s) zero i h g = absurd (omega arith)
Grew-shorter ask first (suc s) (suc t) zero h g = absurd g
Grew-shorter ask first (suc s) (suc t) (suc i) h (e, g) =
    (e, Grew-shorter ask first s t i (omega arith) g)

module _ (F : Type 0) (names : List Text) (data_plane : Option Text) where
  dead-Tells :
      {S A : Type 0} (Good : A → Type 0) (Inv : S → Type 0) (during : During) (dead : Option Text)
      (t : Turn (Refusal F) S A)
      → (dead ≡ none → Tells Good Inv t)
      → Tells Good Inv (unless_dead names data_plane during dead t)
  unfolding unless_dead
  dead-Tells Good Inv during none t h = h refl
  dead-Tells Good Inv during (some n) t h = tt

  module _ (ask : Answers) (first : Option ℕ) where
    abbrev WarmInv : ℕ → WarmUp → Type 0
    WarmInv i st = (st.prev ≡ reading ask first i) × Grew ask first st.advancing i

    check_deadline-Tells :
        (over : Bool) (i : ℕ) (st : WarmUp)
        → WarmInv (suc i) st
        → Tells
            (λ j. Grew ask first 3 (suc j))
            (WarmInv (suc i))
            (check_deadline {F = F} names data_plane ask over st)
    unfolding check_deadline
    check_deadline-Tells true i st h = tt
    check_deadline-Tells false i st h = h

    warm_probe-Tells :
        (over : Bool) (i : ℕ) (st : WarmUp)
        → WarmInv i st
        → Tells
            (λ j. Grew ask first 3 (suc j))
            (WarmInv (suc i))
            (warm_probe {F = F} names data_plane ask over i st (ask.rows_now i))
    unfolding warm_probe
    warm_probe-Tells over i st (p, g) = elim (Bool-cases (is_growing st.prev (ask.rows_now i))) [
      | inr f ↦
          rw f (
            check_deadline-Tells over i (record { advancing = 0; prev = ask.rows_now i })
              (refl, tt))
      | inl e ↦
          let grows = ap (λ o. is_growing o (ask.rows_now i)) (sym p) ∙ e in
          let longer : Grew ask first (suc st.advancing) (suc i) = (grows, g) in
          rw e (elim (Bool-cases (leb 3 (suc st.advancing))) [
            | inl enough ↦
                rw enough
                  (Grew-shorter ask first 3 (suc st.advancing) (suc i) (ground arith) longer)
            | inr few ↦ rw few (
                check_deadline-Tells over i
                  (record { advancing = suc st.advancing; prev = ask.rows_now i }) (refl, longer))
          ])
    ]

    warm_turn-Tells :
        (i : ℕ) (st : WarmUp)
        → WarmInv i st
        → Tells
            (λ j. Grew ask first 3 (suc j))
            (WarmInv (suc i))
            (warm_turn {F = F} names data_plane ask i st)
    unfolding warm_turn
    warm_turn-Tells i st h =
        dead-Tells (λ j. Grew ask first 3 (suc j)) (WarmInv (suc i)) the_warm_up
          (dead_container names (ask.is_alive i))
          (warm_probe names data_plane ask (ask.is_over i) i st (ask.rows_now i))
          (λ _. warm_probe-Tells (ask.is_over i) i st h)

  -- In the rounds before round `i` no container was dead.
  abbrev pub AliveTo : Answers → ℕ → Type 0
  AliveTo ask zero = Unit
  AliveTo ask (suc i) = (dead_container names (ask.is_alive i) ≡ none) × AliveTo ask i

  window_probe-Tells :
      (ask : Answers) (i failures : ℕ) (o : Option ℕ)
      → AliveTo ask (suc i)
      → Tells
          (λ (u : Unit {0}). (ask.is_over i ≡ true) × AliveTo ask i)
          (λ f. AliveTo ask (suc i))
          (window_probe {F = F} names data_plane ask failures o)
  unfolding window_probe
  window_probe-Tells ask i failures (some n) h = h
  window_probe-Tells ask i failures none h = elim (Bool-cases (leb 5 (failures + 1))) [
    | inl m ↦ rw m tt
    | inr f ↦ rw f h
  ]

  closed-Tells :
      (Good : Unit {0} → Type 0) (Inv : ℕ → Type 0) (over : Bool)
      (t : Turn (Refusal F) ℕ (Unit {0}))
      → (over ≡ true → Good tt)
      → Tells Good Inv t
      → Tells Good Inv (if over then finish tt else t)
  closed-Tells Good Inv true t h k = h refl
  closed-Tells Good Inv false t h k = k

  -- The window was held to its end.
  abbrev pub IsWhole : Answers → ℕ → Type 0
  IsWhole ask i = (ask.is_over i ≡ true) × AliveTo ask i

  window_turn-Tells :
      (ask : Answers) (i failures : ℕ)
      → AliveTo ask i
      → Tells
          (λ (u : Unit {0}). IsWhole ask i)
          (λ f. AliveTo ask (suc i))
          (window_turn {F = F} names data_plane ask i failures)
  unfolding window_turn
  window_turn-Tells ask i failures h =
      let Good = λ (u : Unit {0}). IsWhole ask i in
      let probe = window_probe {F = F} names data_plane ask failures (ask.rows_now i) in
      let dead = dead_container names (ask.is_alive i) in
      closed-Tells Good (λ f. AliveTo ask (suc i)) (ask.is_over i)
        (unless_dead names data_plane the_window dead probe) (λ o. (o, h))
        (dead-Tells Good (λ f. AliveTo ask (suc i)) the_window dead probe
          (λ d. window_probe-Tells ask i failures (ask.rows_now i) (d, h)))

module _ (fl : Float) (names : List Text) (data_plane : Option Text) where
  -- The report is the one given, no message failed, and the offered rate was reached.
  abbrev pub IsOffered : LoadReport fl.F → LoadReport fl.F → Type 0
  IsOffered r s = (r ≡ s) × (r.failed ≡ 0) × (fl.lt r.achieved_share (fl.decimal 99 100) ≡ false)

  check_report-IsOffered :
      (r s : LoadReport fl.F) → check_report fl names data_plane r ≡ held s → IsOffered r s
  unfolding check_report
  check_report-IsOffered r s h = (ground arith, ground arith, ground arith)

  after_window-held :
      (r s : LoadReport fl.F) (o : Outcome (Refusal fl.F) (Unit {0}))
      → after_window fl names data_plane r o ≡ held s
      → (o ≡ held tt) × IsOffered r s
  unfolding after_window
  after_window-held r s (held tt) h = (refl, check_report-IsOffered r s h)
  after_window-held r s (refused w) h = cc
  after_window-held r s out_of_fuel h = cc

  after_warm_up-held :
      (window : Answers) (r s : LoadReport fl.F) (fuel : ℕ) (o : Outcome (Refusal fl.F) ℕ)
      → after_warm_up fl names data_plane window r fuel o ≡ held s
      → (i : ℕ) × (o ≡ held i)
        × (run (window_turn {F = fl.F} names data_plane window) fuel 0 0 ≡ held tt)
        × IsOffered r s
  unfolding after_warm_up
  after_warm_up-held window r s fuel (held i) h =
      let (w, offered) =
        after_window-held r s (run (window_turn {F = fl.F} names data_plane window) fuel 0 0) h in
      (i, refl, w, offered)
  after_warm_up-held window r s fuel (refused w) h = cc
  after_warm_up-held window r s fuel out_of_fuel h = cc

  -- A sustained run is held only after three rounds in a row that each read more rows than the reading
  -- before; then until the window's length is over, with no container dead in any of its rounds; and with
  -- a generator that failed no message and offered at least 99% of the rate.
  pub hold_sustained_window-held :
      (warm_up : Answers) (first : Option ℕ) (window : Answers) (r s : LoadReport fl.F) (fuel : ℕ)
      → hold_sustained_window fl names data_plane warm_up first window r fuel ≡ held s
      → ((i : ℕ) × Grew warm_up first 3 i)
        × ((j : ℕ) × IsWhole fl.F names data_plane window j)
        × IsOffered r s
  unfolding hold_sustained_window
  hold_sustained_window-held warm_up first window r s fuel h =
      let warm = warm_turn {F = fl.F} names data_plane warm_up in
      let (i, w, v, offered) =
        after_warm_up-held window r s fuel
          (run warm fuel 0 (record { advancing = 0; prev = first })) h in
      let (_, grew) =
        run-held warm (WarmInv fl.F names data_plane warm_up first)
          (λ _ j. Grew warm_up first 3 (suc j))
          (warm_turn-Tells fl.F names data_plane warm_up first) fuel 0
          (record { advancing = 0; prev = first }) i (refl, tt) w in
      let (j, whole) =
        run-held (window_turn {F = fl.F} names data_plane window)
          (λ k f. AliveTo fl.F names data_plane window k)
          (λ k (u : Unit {0}). IsWhole fl.F names data_plane window k)
          (window_turn-Tells fl.F names data_plane window) fuel 0 0 tt tt v in
      ((suc i, grew), (j, whole), offered)
