-- ===== src/Entrant/Validate/Arms.antt =====
-- What a valid descriptor of a runnable entrant gives the rest of the program.
use spate_benchmark.Prelude.{
  ℕ, true, Option, some, List, [], ◌∷◌, map, get_elem?, ◌≡◌, All, All-get_elem?, append-nil_iff,
  map-nil,
}
use spate_benchmark.Prelude.Int.{ℤ}
use spate_benchmark.Entrant.Descriptor.{is_runnable, Envelope, Constraint, Variant, Entrant}
use spate_benchmark.Entrant.Knobs.{knob_violations}
use spate_benchmark.Entrant.Knobs.Met.{IsMet, knob_violations-nil}
use spate_benchmark.Entrant.Validate.{Reads, validate}
use spate_benchmark.Entrant.Validate.Passed.{validate-Passes}
use spate_benchmark.Entrant.Validate.Parts.{
  check_constraints, check_committed, validate_constraints,
}

module _ {F V : Type 0} (as_integer : V → Option ℤ) (cs : List Constraint) where
  committed-Met :
      (vs : List (Variant V))
      → check_committed {F = F} as_integer cs vs ≡ []
      → All (λ v. All (IsMet as_integer v.knobs) cs) vs
  unfolding check_committed
  committed-Met [] h = tt
  committed-Met (v ∷ vs) h =
      let (p, q) =
        (append-nil_iff (map _ (knob_violations as_integer cs v.knobs))
            (check_committed {F = F} as_integer cs vs)).0
          h in
      (
        (knob_violations-nil as_integer v.knobs cs).0
            ((map-nil _ (knob_violations as_integer cs v.knobs)).0 p),
        committed-Met vs q,
      )

module _ {V : Type 0} (reads : Reads V) (e : Entrant V) (valid : validate reads e ≡ [])
    (runs : is_runnable e.spec.entrant.status ≡ true) where
  -- The knobs that a variant of a valid descriptor declares meet every constraint of the entrant.
  pub validate-Met :
      (i : ℕ) (v : Variant V)
      → get_elem? e.spec.variants i ≡ some v
      → All (IsMet reads.as_integer v.knobs) e.spec.constraints
  unfolding validate_constraints
  validate-Met i v at =
      let passed = (validate-Passes reads e valid runs).constraints in
      let (_, committed) =
        (append-nil_iff (check_constraints {F = reads.fl.F} e.spec.constraints) _).0 passed in
      All-get_elem? _ e.spec.variants i
        (committed-Met {F = reads.fl.F} reads.as_integer e.spec.constraints e.spec.variants
          committed)
        at
