-- ===== src/Driver/Overrides/Examples.antt =====
-- Overrides of a variant of two knobs; a value is its integer.
use spate_benchmark.Prelude.{true, none, some, [], ◌∷◌, codes, text_eq, any, ◌≡◌, ◌↔◌, refl, All}
use spate_benchmark.Prelude.Int.{ℤ, pos}
use spate_benchmark.Entrant.Descriptor.{Map, Constraint}
use spate_benchmark.Entrant.Knobs.{keys, knob_violations}
use spate_benchmark.Entrant.Knobs.Met.{IsMet}
use spate_benchmark.Driver.Overrides.{
  text_lt, insert, insert_all, knobs_for, undeclared, undeclared_knobs, unrunnable_knobs,
}
use spate_benchmark.Driver.Overrides.Effective.{unrunnable_knobs-nil}
use spate_benchmark.Driver.Overrides.Valid.{unrunnable_knobs-valid}
use spate_benchmark.Entrant.Validate.Sample.{sample, reads, raw_variant, sample_valid, sample_runs}

abbrev declared : Map ℤ
declared = (codes "batch", pos 100) ∷ (codes "threads", pos 4) ∷ []

abbrev overrides : Map ℤ
overrides = (codes "flush", pos 9) ∷ (codes "threads", pos 8) ∷ []

effective :
    knobs_for overrides declared
    ≡ (codes "batch", pos 100) ∷ (codes "flush", pos 9) ∷ (codes "threads", pos 8) ∷ []
unfolding knobs_for insert_all insert text_lt text_eq
effective = refl

misspelt :
    unrunnable_knobs some declared [] overrides ≡ undeclared (codes "flush") (keys declared) ∷ []
unfolding unrunnable_knobs undeclared_knobs knobs_for insert_all insert text_lt text_eq keys
    knob_violations
misspelt = refl

abbrev floor : Constraint
floor = record {
  knob = codes "threads";
  exceeds = none;
  at_least = some (pos 2);
  why = codes "idle";
}

unrunnable_knobs-nil_example : (unrunnable_knobs some declared (floor ∷ []) overrides ≡ []) ↔ (
    All (λ name. any (λ k. text_eq k name) (keys declared) ≡ true) (keys overrides)
    × All (IsMet some (knobs_for overrides declared)) (floor ∷ []))
unrunnable_knobs-nil_example = unrunnable_knobs-nil some declared (floor ∷ []) overrides

unrunnable_knobs-valid_example :
    unrunnable_knobs some raw_variant.knobs sample.spec.constraints [] ≡ []
unrunnable_knobs-valid_example =
    unrunnable_knobs-valid reads sample sample_valid sample_runs 1 raw_variant refl
