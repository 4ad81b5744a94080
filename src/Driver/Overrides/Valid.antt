-- ===== src/Driver/Overrides/Valid.antt =====
-- The arms of a valid descriptor, with the knobs as declared.
use spate_benchmark.Prelude.{ℕ, true, some, [], get_elem?, ◌≡◌}
use spate_benchmark.Entrant.Descriptor.{is_runnable, Variant, Entrant}
use spate_benchmark.Entrant.Knobs.{keys}
use spate_benchmark.Entrant.Validate.{Reads, validate}
use spate_benchmark.Entrant.Validate.Arms.{validate-Met}
use spate_benchmark.Driver.Overrides.{insert_all, knobs_for, unrunnable_knobs}
use spate_benchmark.Driver.Overrides.Effective.{unrunnable_knobs-nil}

-- The driver finds no problem with the knobs of a variant of a valid descriptor that is runnable, where
-- the invocation overrides none of them.
pub unrunnable_knobs-valid :
    {V : Type 0} (reads : Reads V) (e : Entrant V)
    → validate reads e ≡ []
    → is_runnable e.spec.entrant.status ≡ true
    → (i : ℕ) (v : Variant V) → get_elem? e.spec.variants i ≡ some v
    → unrunnable_knobs reads.as_integer v.knobs e.spec.constraints [] ≡ []
unfolding knobs_for insert_all keys
unrunnable_knobs-valid reads e valid runs i v at =
    (unrunnable_knobs-nil reads.as_integer v.knobs e.spec.constraints []).1
      (tt, validate-Met reads e valid runs i v at)
