-- ===== src/Driver/Quiesce/Examples.antt =====
-- Runs of the wait.
use spate_benchmark.Prelude.{
  ℕ, Bool, true, Option, none, some, ◌≡◌, refl, leb, ltb, ◌==◌, if◌then◌else◌,
}
use spate_benchmark.Driver.Quiesce.{
  Quiesced, ok, unreadable, on_failure, on_count, on_probe, finish, after_poll, loop, quiesce,
}
use spate_benchmark.Driver.Quiesce.Settled.{Last, quiesce-settled}

-- The count rises to 4, with one failed poll on the way.
abbrev probe : ℕ → Option ℕ
probe i = if i == 2 then none else if ltb i 4 then some i else some 4

abbrev is_late : ℕ → Bool
is_late i = leb 900 i

abbrev at_four : Quiesced
at_four = record { rows = 4; settled = true }

probe_settles : quiesce probe is_late 20 ≡ ok at_four
unfolding quiesce loop on_probe on_failure on_count after_poll finish
probe_settles = refl

no_answers : quiesce (λ i. none) is_late 20 ≡ unreadable 5
unfolding quiesce loop on_probe on_failure on_count after_poll finish
no_answers = refl

quiesce-settled_example : (i : ℕ) × Last probe 3 i 4
quiesce-settled_example = quiesce-settled probe is_late 20 at_four probe_settles refl
