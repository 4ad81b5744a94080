-- ===== src/ServerSide/Span/Examples.antt =====
-- Windows of arms of two containers.
use spate_benchmark.Prelude.{ℕ, List, [], ◌∷◌, ◌≡◌, refl}
use spate_benchmark.Prelude.Int.{ℤ, pos, negsuc}
use spate_benchmark.Sampler.{Sample, Samples, readable}
use spate_benchmark.ServerSide.{ok, err, empty_window}
use spate_benchmark.ServerSide.Span.{new, times, min_of, max_of, span, spanning}

abbrev at : ℕ → ℤ → Sample
at t anon = record {
  t_ms = t;
  usage_usec = pos 0;
  user_usec = pos 0;
  system_usec = pos 0;
  nr_throttled = pos 0;
  throttled_usec = pos 0;
  mem_current = pos 0;
  mem_peak = pos 0;
  anon = anon;
  file = pos 0;
  slab = pos 0;
  kernel_stack = pos 0;
  sock = pos 0;
}

abbrev series : List Sample → Samples ℕ
series rows = record { meta = []; rows = rows; wall_s = 60000 }

-- Each container has one readable row.
abbrev arm : List (Samples ℕ)
arm = series (at 2000 (pos 9) ∷ at 9000 (negsuc 0) ∷ []) ∷ series (at 1500 (pos 4) ∷ []) ∷ []

one_row_each : spanning arm ≡ ok (record { from_ms = 1500; to_ms = 2000 })
unfolding spanning span new times min_of max_of readable
one_row_each = refl

spanning_one : spanning (series (at 1500 (pos 4) ∷ []) ∷ []) ≡ err (empty_window 1500 1500)
unfolding spanning span new times min_of max_of readable
spanning_one = refl
