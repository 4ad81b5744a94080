-- ===== src/Sampler/Sum/Examples.antt =====
-- An arm of two containers.
use spate_benchmark.Prelude.{ℕ, ◌≤◌, Option, none, some, List, [], ◌∷◌, map, ◌≡◌, refl, All}
use spate_benchmark.Scaled.{thousandths}
use spate_benchmark.Sampler.{
  SutCost, cons_present, present, add_over, longest, min_samples, sum_unreadable, sum_present, sum,
}
use spate_benchmark.Sampler.Sum.{sum-All}

abbrev cost : ℕ → ℕ → ℕ → SutCost ℕ
cost window_s cpu_us samples = record {
  window_s = window_s;
  cpu_us = cpu_us;
  user_us = cpu_us;
  system_us = 0;
  cores_used = 0;
  throttled_us = 0;
  nr_throttled = 0;
  peak_anon_bytes = 5000;
  peak_charged_bytes = 6000;
  peak_current_bytes = 6000;
  samples = samples;
  unreadable = 1;
}

abbrev total : SutCost ℕ
total = record {
  window_s = 4000;
  cpu_us = 7000;
  user_us = 7000;
  system_us = 0;
  cores_used = 0;
  throttled_us = 0;
  nr_throttled = 0;
  peak_anon_bytes = 10000;
  peak_charged_bytes = 12000;
  peak_current_bytes = 12000;
  samples = 3;
  unreadable = 2;
}

abbrev parts : List (Option (SutCost ℕ))
parts = some (cost 4000 2000 5) ∷ some (cost 3000 5000 3) ∷ []

sum_parts : sum thousandths parts ≡ some total
unfolding sum sum_present present cons_present add_over longest min_samples sum_unreadable
sum_parts = refl

-- A container without a cost leaves the arm without one.
partial_arm : sum thousandths (none ∷ parts) ≡ none
unfolding sum sum_present present
partial_arm = refl

sum-All_example :
    (c : SutCost ℕ) × (cs : List (SutCost ℕ)) × (parts ≡ map some (c ∷ cs))
    × All (λ p. 3 ≤ p.samples) (c ∷ cs)
sum-All_example = sum-All thousandths parts total sum_parts
