-- ===== src/Entrant/Validate/Parts.antt =====
-- The parts of `validate` of harness/src/entrant.rs on the version, the guarantees, the constraints and
-- the deviations.
use spate_benchmark.Prelude.{
  ℕ, ◌+◌, Bool, true, false, not, Option, none, some, List, [], ◌∷◌, ◌++◌, map, Text, codes,
  text_eq, if◌then◌else◌, any, is_empty, ◌||◌, ◌&&◌, ◌≡◌, ◌↔◌, refl,
}
use spate_benchmark.Prelude.Int.{ℤ}
use spate_benchmark.Prelude.Strings.{trim}
use spate_benchmark.Entrant.Descriptor.{
  is_data_plane, Envelope, VersionSource, Guarantees, Variant, Constraint, Deviation,
}
use spate_benchmark.Entrant.Knobs.{knob_violations}
use spate_benchmark.Entrant.Validate.Problems.{
  Problem, no_version, unknown_strategy, no_command, no_guarantees, other_delivery, empty_knob,
  not_one_relation, exceeds_itself, no_reason, variant_violates, empty_what,
  undisclosed_control_plane,
}

-- `errs.push(p)` under a condition
abbrev pub report_if {ℓ} : {A : Type ℓ} → Bool → A → List A
report_if b p = if b then p ∷ [] else []

pub report_if-nil {ℓ} : {A : Type ℓ} (b : Bool) (p : A) → (report_if b p ≡ []) ↔ (b ≡ false)
report_if-nil true p = (λ h. cc, λ h. cc)
report_if-nil false p = (λ h. refl, λ h. refl)

abbrev version_strategies : List Text
version_strategies = codes "command" ∷ []

abbrev delivery_contract : Text
delivery_contract = codes "at-least-once"

-- `s.trim().is_empty()`
abbrev pub is_trimmed_empty : Text → Bool
is_trimmed_empty s = is_empty (trim s)

abbrev pub some_is : Option Text → (Text → Bool) → Bool
some_is none p = false
some_is (some s) p = p s

-- The match on `(&c.exceeds, c.at_least)`.
abbrev states_one : Option Text → Option ℤ → Bool
states_one (some e) none = true
states_one none (some f) = true
states_one _ _ = false

abbrev has_control_plane : Option Envelope → Bool
has_control_plane none = false
has_control_plane (some env) = any (λ c. not (is_data_plane c.role)) env.containers

abbrev discloses_envelope : List Deviation → Bool
discloses_envelope = any (λ d. any (λ a. text_eq a (codes "envelope")) d.affects)

module _ {F : Type 0} where
  unfoldable pub validate_version : Option VersionSource → List (Problem F)
  validate_version none = no_version ∷ []
  validate_version (some v) =
      report_if (not (any (text_eq v.strategy) version_strategies)) (unknown_strategy v.strategy)
      ++ report_if (text_eq v.strategy (codes "command") && is_empty v.command) no_command

  unfoldable pub validate_guarantees : Option Guarantees → List (Problem F)
  validate_guarantees none = no_guarantees ∷ []
  validate_guarantees (some g) =
      report_if (not (text_eq g.delivery delivery_contract)) (other_delivery g.delivery)

  unfoldable pub check_constraint : Constraint → List (Problem F)
  check_constraint c =
      report_if (is_trimmed_empty c.knob || some_is c.exceeds is_trimmed_empty) empty_knob
      ++ (report_if (not (states_one c.exceeds c.at_least)) (not_one_relation c.knob)
          ++ (report_if (some_is c.exceeds (λ e. text_eq e c.knob)) (exceeds_itself c.knob)
              ++ report_if (is_trimmed_empty c.why) (no_reason c.knob)))

  unfoldable pub check_constraints : List Constraint → List (Problem F)
  check_constraints [] = []
  check_constraints (c ∷ cs) = check_constraint c ++ check_constraints cs

  module _ {V : Type 0} (as_integer : V → Option ℤ) where
    unfoldable pub check_committed : List Constraint → List (Variant V) → List (Problem F)
    check_committed cs [] = []
    check_committed cs (v ∷ vs) =
        map (variant_violates v.id) (knob_violations as_integer cs v.knobs) ++ check_committed cs vs

    unfoldable pub validate_constraints : List Constraint → List (Variant V) → List (Problem F)
    validate_constraints cs vs = check_constraints cs ++ check_committed cs vs

  unfoldable pub check_whats : ℕ → List Deviation → List (Problem F)
  check_whats i [] = []
  check_whats i (d ∷ ds) =
      report_if (is_trimmed_empty d.what) (empty_what i) ++ check_whats (i + 1) ds

  unfoldable pub validate_deviations : Option Envelope → List Deviation → List (Problem F)
  validate_deviations envelope ds =
      check_whats 0 ds
      ++ report_if (has_control_plane envelope && not (discloses_envelope ds))
          undisclosed_control_plane
