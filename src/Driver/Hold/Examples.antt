-- ===== src/Driver/Hold/Examples.antt =====
-- Runs of the windows.
use spate_benchmark.Prelude.{
  ℕ, ◌*◌, ◌≤◌, leb, true, false, not, none, some, List, [], ◌∷◌, Text, codes, text_eq, ◌||◌, ◌≡◌,
  refl, arith,
}
use spate_benchmark.Scaled.{thousandths}
use spate_benchmark.Driver.Hold.{
  Answers, held, refused, died, unreadable, the_drain, LoadReport, dead_container, run, drain_turn,
  warm_turn, window_turn, hold_drain_window, hold_sustained_window,
}
use spate_benchmark.Driver.Hold.Rounds.{IsEnded}
use spate_benchmark.Driver.Hold.Drained.{
  IsDrained, hold_drain_window-IsDrained, hold_drain_window-ends, hold_drain_window-finishes,
}
use spate_benchmark.Driver.Hold.Sustained.{Grew, IsWhole, IsOffered, hold_sustained_window-held}

abbrev names : List Text
names = codes "job" ∷ codes "task" ∷ []

-- A hundred rows a round, alive, and over from round 4 on.
abbrev steady : Answers
steady = record { is_alive = λ i n. true; rows_now = λ i. some (i * 100); is_over = λ i. leb 4 i }

drained : hold_drain_window {F = ℕ} names none steady 300 5 ≡ held 300
unfolding hold_drain_window run drain_turn dead_container
drained = refl

task_died :
    hold_drain_window {F = ℕ} names
      (some (codes "task"))
      (record steady { is_alive = λ i n. not (text_eq n (codes "task")) || leb i 1 })
      300
      5
    ≡ refused (died true (codes "task") the_drain)
unfolding hold_drain_window run drain_turn dead_container text_eq
task_died = refl

unread :
    hold_drain_window {F = ℕ} names none
      (record { is_alive = λ i n. true; rows_now = λ i. none; is_over = λ i. false })
      300
      9
    ≡ refused (unreadable 5 0)
unfolding hold_drain_window run drain_turn dead_container
unread = refl

abbrev report : LoadReport ℕ
report = record { sent = 500; failed = 0; achieved_share = 995; max_schedule_lag_ms = 3 }

sustained : hold_sustained_window thousandths names none steady none steady report 6 ≡ held report
unfolding hold_sustained_window run warm_turn window_turn dead_container
sustained = refl

all_alive : dead_container names (λ n. true) ≡ none
unfolding dead_container
all_alive = refl

hold_drain_window-IsDrained_example : IsDrained ℕ names none steady 300 300
hold_drain_window-IsDrained_example =
    hold_drain_window-IsDrained ℕ names none steady 300 5 300 drained

hold_drain_window-ends_example : IsEnded (hold_drain_window {F = ℕ} names none steady 900 5)
hold_drain_window-ends_example = hold_drain_window-ends ℕ names none steady 900 4 refl

hold_drain_window-finishes_example :
    (rows : ℕ) × (hold_drain_window {F = ℕ} names none steady 300 4 ≡ held rows) × (300 ≤ rows)
hold_drain_window-finishes_example =
    hold_drain_window-finishes ℕ names none steady 300 3 300 (λ i h. all_alive)
      (λ i h. (i * 100, refl)) (λ i h. ground arith) refl (omega arith)

hold_sustained_window-held_example :
    ((i : ℕ) × Grew steady none 3 i)
    × ((j : ℕ) × IsWhole ℕ names none steady j)
    × IsOffered thousandths names none report report
hold_sustained_window-held_example =
    hold_sustained_window-held thousandths names none steady none steady report report 6 sustained
