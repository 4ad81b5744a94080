-- ===== src/Driver/Windows/Examples.antt =====
-- The interval of an arm of two containers.
use spate_benchmark.Prelude.{ℕ, some, none, List, [], ◌∷◌, Text, codes, ◌≡◌, refl, arith}
use spate_benchmark.Prelude.Int.{ℤ, pos, negsuc}
use spate_benchmark.Sampler.{Sample, Samples, readable, last_of}
use spate_benchmark.ServerSide.{ok}
use spate_benchmark.ServerSide.Span.{spanning}
use spate_benchmark.Driver.Windows.{
  ends_of, readable_rows, sampler_window_ms, projected_topic_bytes, producer_threads,
}
use spate_benchmark.Driver.Windows.Agrees.{series_of, sampler_window_ms-spanning}

abbrev at : ℕ → ℤ → Sample
at t anon = record {
  t_ms = t;
  usage_usec = pos 0;
  user_usec = pos 0;
  system_usec = pos 0;
  nr_throttled = pos 0;
  throttled_usec = pos 0;
  mem_current = pos 0;
  mem_peak = pos 0;
  anon = anon;
  file = pos 0;
  slab = pos 0;
  kernel_stack = pos 0;
  sock = pos 0;
}

abbrev series : List Sample → Samples ℕ
series rows = record { meta = []; rows = rows; wall_s = 60000 }

abbrev costs : List (Text × Samples ℕ)
costs =
    (codes "jobmanager", series (at 1500 (pos 4) ∷ at 2600 (pos 4) ∷ []))
    ∷ (codes "taskmanager", series (at 2000 (pos 9) ∷ at 2900 (pos 1) ∷ at 9000 (negsuc 0) ∷ []))
    ∷ []

window : sampler_window_ms costs ≡ some (1500, 2900)
unfolding sampler_window_ms ends_of readable_rows last_of readable
window = refl

-- The driver takes no interval where a container has no readable row.
unread : sampler_window_ms ((codes "a", series []) ∷ costs) ≡ none
unfolding sampler_window_ms ends_of readable_rows
unread = refl

threads : producer_threads 200000 ≡ 4
unfolding producer_threads
threads = refl

projected : projected_topic_bytes 10 60000 300 2 5000 ≡ 207000050000
unfolding projected_topic_bytes
projected = refl

sampler_window_ms-spanning_example :
    spanning (series_of costs) ≡ ok (record { from_ms = 1500; to_ms = 2900 })
unfolding readable_rows readable
sampler_window_ms-spanning_example =
    sampler_window_ms-spanning costs 1500 2900
      (
        (((omega arith, tt), (tt, tt)), (omega arith, (omega arith, tt))),
        ((((omega arith, tt), (tt, tt)), (omega arith, (omega arith, tt))), tt),
      )
      window
