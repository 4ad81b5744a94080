-- ===== src/Sampler/Peak/Examples.antt =====
-- Runs of the simultaneous peak.
use spate_benchmark.Prelude.{ℕ, List, [], ◌∷◌, ◌≡◌, refl, arith, filter}
use spate_benchmark.Prelude.Int.{ℤ, pos, negsuc}
use spate_benchmark.Sampler.{Sample, readable, last_of, max_over}
use spate_benchmark.Sampler.Peak.{
  peak, advance_rows, total, loop, keep_min, keep_max, first_time, last_time, peak_between,
  peak_of_readable, simultaneous_peak_anon,
}
use spate_benchmark.Sampler.Peak.Single.{simultaneous_peak_anon-single}

abbrev at : ℕ → ℤ → Sample
at t anon = record {
  t_ms = t;
  usage_usec = pos 0;
  user_usec = pos 0;
  system_usec = pos 0;
  nr_throttled = pos 0;
  throttled_usec = pos 0;
  mem_current = pos 0;
  mem_peak = pos 0;
  anon = anon;
  file = pos 0;
  slab = pos 0;
  kernel_stack = pos 0;
  sock = pos 0;
}

-- One container spikes early and the other late; a row that could not be read stands between.
abbrev arm : List (List Sample)
arm =
    (at 1000 (pos 50) ∷ at 2000 (pos 5) ∷ at 2500 (negsuc 0) ∷ at 3000 (pos 5) ∷ [])
    ∷ (at 1200 (pos 7) ∷ at 2200 (pos 7) ∷ at 3200 (pos 40) ∷ [])
    ∷ []

two_containers : simultaneous_peak_anon 5 arm ≡ peak 57
unfolding simultaneous_peak_anon peak_of_readable peak_between loop total advance_rows first_time
    last_time keep_min keep_max last_of readable
two_containers = refl

-- The first of two readings in one bucket is not seen.
two_in_one_bucket :
    simultaneous_peak_anon 5 ((at 1000 (pos 100) ∷ at 1500 (pos 5) ∷ []) ∷ []) ≡ peak 5
unfolding simultaneous_peak_anon peak_of_readable peak_between loop total advance_rows first_time
    last_time keep_min keep_max last_of readable
two_in_one_bucket = refl

-- One container, read each second, with a row between that could not be read.
abbrev only : List Sample
only = at 1000 (pos 10) ∷ at 1500 (negsuc 0) ∷ at 2000 (pos 900) ∷ at 3000 (pos 400) ∷ []

filtered : filter readable only ≡ at 1000 (pos 10) ∷ at 2000 (pos 900) ∷ at 3000 (pos 400) ∷ []
unfolding readable
filtered = refl

simultaneous_peak_anon-single_example :
    simultaneous_peak_anon 4 (only ∷ [])
    ≡ peak (max_over (λ t. t.anon) (at 1000 (pos 10) ∷ at 2000 (pos 900) ∷ at 3000 (pos 400) ∷ []))
unfolding last_of
simultaneous_peak_anon-single_example =
    simultaneous_peak_anon-single only (at 1000 (pos 10))
      (at 2000 (pos 900) ∷ at 3000 (pos 400) ∷ []) 4 filtered (omega arith) (omega arith)
      (omega arith)
