-- ===== src/Entrant/Validate/Env.antt =====
-- `validate_env` of harness/src/entrant.rs: the placeholders of the environment.
pub mod Known
use spate_benchmark.Prelude.{
  Bool, true, false, not, Option, none, some, List, [], ◌∷◌, ◌++◌, Text, text_eq, if◌then◌else◌,
  any,
}
use spate_benchmark.Entrant.Descriptor.{Map, Container, Envelope, Variant, declared_containers}
use spate_benchmark.Entrant.Knobs.{keys}
use spate_benchmark.Entrant.Placeholders.{
  Placeholder, knob, container, parse, Token, placeholder_tokens,
}
use spate_benchmark.Entrant.Validate.Problems.{
  Place, entrant_wide, of_variant, Problem, never_closes, not_placeholder, no_knob, no_container,
}
use spate_benchmark.Entrant.Validate.Parts.{report_if}

-- `v.knobs.contains_key(k)`
abbrev pub has_knob : {V : Type 0} → Text → Variant V → Bool
has_knob k v = any (λ name. text_eq name k) (keys v.knobs)

module _ {F V : Type 0} where
  pub check_knob : Place → Text → Text → List (Variant V) → List (Problem F)
  check_knob place key k [] = []
  check_knob place key k (v ∷ vs) =
      report_if (not (has_knob k v)) (no_knob place key k v.id) ++ check_knob place key k vs

module _ {F V : Type 0} (containers : List Container) where
  -- The match on `Placeholder::parse(inner)`.
  pub check_parsed :
      Place → Text → Text → Text → List (Variant V) → Option Placeholder → List (Problem F)
  unfolding check_knob
  check_parsed place key raw token vs none = not_placeholder place key raw token ∷ []
  check_parsed place key raw token vs (some (knob k)) = check_knob place key k vs
  check_parsed place key raw token vs (some (container c)) =
      report_if (not (any (λ ct. text_eq ct.name c) containers)) (no_container place key c)
  check_parsed place key raw token vs (some _) = []

  pub check_token : Place → Text → Text → List (Variant V) → Token → List (Problem F)
  unfolding check_parsed
  check_token place key raw vs (token, none) = never_closes place key raw token ∷ []
  check_token place key raw vs (token, some inner) =
      check_parsed place key raw token vs (parse inner)

  pub check_tokens : Place → Text → Text → List (Variant V) → List Token → List (Problem F)
  unfolding check_token
  check_tokens place key raw vs [] = []
  check_tokens place key raw vs (t ∷ ts) =
      check_token place key raw vs t ++ check_tokens place key raw vs ts

  -- The closure `check`, for each entry of an environment.
  pub check_env : Place → List (Variant V) → Map Text → List (Problem F)
  unfolding check_tokens
  check_env place vs [] = []
  check_env place vs ((key, raw) ∷ rest) =
      check_tokens place key raw vs (placeholder_tokens raw) ++ check_env place vs rest

  pub check_variant_envs : List (Variant V) → List (Problem F)
  unfolding check_env
  check_variant_envs [] = []
  check_variant_envs (v ∷ vs) = check_env (of_variant v.id) (v ∷ []) v.env ++ check_variant_envs vs

unfoldable pub validate_env :
    {F V : Type 0} → Option Envelope → Map Text → List (Variant V) → List (Problem F)
unfolding check_env check_variant_envs
validate_env envelope env vs =
    check_env (declared_containers envelope) entrant_wide vs env
    ++ check_variant_envs (declared_containers envelope) vs
