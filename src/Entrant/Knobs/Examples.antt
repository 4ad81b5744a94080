-- ===== src/Entrant/Knobs/Examples.antt =====
-- Runs of the constraints, with integers for the values.
use spate_benchmark.Prelude.{none, some, List, [], ◌∷◌, codes, text_eq, ◌≡◌, refl}
use spate_benchmark.Prelude.Int.{ℤ, pos}
use spate_benchmark.Entrant.Descriptor.{Map, Constraint}
use spate_benchmark.Entrant.Knobs.{
  below_floor, knob_violations, check_relation, check_exceeds, check_floor, value, integer_of, keys,
}

abbrev knobs : Map ℤ
knobs = (codes "fetch", pos 4) ∷ (codes "queue", pos 3) ∷ []

abbrev constraints : List Constraint
constraints =
    record {
      knob = codes "fetch";
      exceeds = some (codes "queue");
      at_least = none;
      why = codes "w";
    }
    ∷ record { knob = codes "queue"; exceeds = none; at_least = some (pos 5); why = codes "x" }
    ∷ []

one_below :
    knob_violations some constraints knobs
    ≡ below_floor (codes "queue") (pos 3) (pos 5) (codes "x") ∷ []
unfolding knob_violations check_relation check_exceeds check_floor value integer_of keys text_eq
one_below = refl
