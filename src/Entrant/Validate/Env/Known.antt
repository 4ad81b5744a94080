-- ===== src/Entrant/Validate/Env/Known.antt =====
-- The placeholders of an environment that passes the validation.
use spate_benchmark.Prelude.{
  Bool, true, false, not, Option, some, List, [], ◌∷◌, ◌++◌, Text, text_eq, any, ◌≡◌, refl, ap, sym,
  ◌∙◌, ℕ, All, All-map, All-append, All-get_elem?, get_elem?, append-nil_iff, inl, inr,
  Option-cases,
}
use spate_benchmark.Entrant.Descriptor.{declared_containers, Map, Container, Envelope, Variant}
use spate_benchmark.Entrant.Placeholders.{
  Placeholder, broker_internal, registry_internal, clickhouse_internal, topic, group_id,
  offset_reset, clickhouse_password, knob, container, parse, Token, closed, placeholder_tokens,
}
use spate_benchmark.Entrant.Placeholders.Template.{
  Part, print, holes, IsTemplate, tokens, tokens-print,
}
use spate_benchmark.Entrant.Validate.Problems.{
  Place, entrant_wide, of_variant, Problem, no_knob, no_container,
}
use spate_benchmark.Entrant.Validate.Parts.{report_if, report_if-nil}
use spate_benchmark.Entrant.Validate.Env.{
  has_knob, check_knob, check_parsed, check_token, check_tokens, check_env, check_variant_envs,
  validate_env,
}

pub true_of_not : (b : Bool) → not b ≡ false → b ≡ true
true_of_not true h = refl
true_of_not false h = cc

module _ {F V : Type 0} where
  check_knob-nil :
      (place : Place) (key k : Text) (vs : List (Variant V))
      → check_knob {F = F} place key k vs ≡ []
      → All (λ v. has_knob k v ≡ true) vs
  unfolding check_knob
  check_knob-nil place key k [] h = tt
  check_knob-nil place key k (v ∷ vs) h =
      let problem : Problem F = no_knob place key k v.id in
      let (p, q) =
        (append-nil_iff (report_if (not (has_knob k v)) problem)
            (check_knob {F = F} place key k vs)).0
          h in
      let clear = (report_if-nil (not (has_knob k v)) problem).0 p in
      (true_of_not (has_knob k v) clear, check_knob-nil place key k vs q)

module _ {V : Type 0} (containers : List Container) (vs : List (Variant V)) where
  -- The knob that it names is one of every variant, and the container that it names is declared.
  abbrev pub Names : Placeholder → Type 0
  Names (knob k) = All (λ v. has_knob k v ≡ true) vs
  Names (container c) = any (λ ct. text_eq ct.name c) containers ≡ true
  Names _ = Unit

  -- The text between braces is a placeholder, of the vocabulary and of the descriptor.
  abbrev pub IsKnown : Text → Type 0
  IsKnown inner = (p : Placeholder) × (parse inner ≡ some p) × Names p

  module _ {F : Type 0} (place : Place) (key raw : Text) where
    check_parsed-nil :
        (token : Text) (p : Placeholder)
        → check_parsed {F = F} containers place key raw token vs (some p) ≡ []
        → Names p
    unfolding check_parsed
    check_parsed-nil token (knob k) h = check_knob-nil {F = F} place key k vs h
    check_parsed-nil token (container c) h =
        let declared = any (λ ct. text_eq ct.name c) containers in
        let problem : Problem F = no_container place key c in
        true_of_not declared ((report_if-nil (not declared) problem).0 h)
    check_parsed-nil token broker_internal h = tt
    check_parsed-nil token registry_internal h = tt
    check_parsed-nil token clickhouse_internal h = tt
    check_parsed-nil token topic h = tt
    check_parsed-nil token group_id h = tt
    check_parsed-nil token offset_reset h = tt
    check_parsed-nil token clickhouse_password h = tt

    check_token-nil :
        (token inner : Text)
        → check_token {F = F} containers place key raw vs (token, some inner) ≡ []
        → IsKnown inner
    unfolding check_token check_parsed
    check_token-nil token inner h = elim (Option-cases (parse inner)) [
      | inl e ↦
          let none_of = sym (ap (check_parsed {F = F} containers place key raw token vs) e) ∙ h in
          absurd (cc)
      | inr (p, e) ↦ (
        p,
        e,
        check_parsed-nil token p
            (sym (ap (check_parsed {F = F} containers place key raw token vs) e) ∙ h),
      )
    ]

    check_tokens-nil :
        (is : List Text)
        → check_tokens {F = F} containers place key raw vs (tokens is) ≡ []
        → All IsKnown is
    unfolding check_tokens
    check_tokens-nil [] h = tt
    check_tokens-nil (i ∷ is) h =
        let t : Token = (closed i, some i) in
        let (p, q) =
          (append-nil_iff (check_token {F = F} containers place key raw vs t)
              (check_tokens {F = F} containers place key raw vs (tokens is))).0
            h in
        (check_token-nil (closed i) i p, check_tokens-nil is q)

module _ {V : Type 0} (cs : List Container) where
  -- What is known of an entry of the environment of a variant.
  abbrev Entry : Variant V → Text × Text → Type 0
  Entry v (key, raw) =
      (ps : List Part) → raw ≡ print ps → IsTemplate ps → All (IsKnown cs (v ∷ [])) (holes ps)

  at_one :
      (vs : List (Variant V)) (i : ℕ) (v : Variant V)
      → get_elem? vs i ≡ some v
      → (p : Placeholder) → Names cs vs p
      → Names cs (v ∷ []) p
  at_one vs i v e (knob k) h = (All-get_elem? (λ w. has_knob k w ≡ true) vs i h e, tt)
  at_one vs i v e (container c) h = h
  at_one vs i v e broker_internal h = tt
  at_one vs i v e registry_internal h = tt
  at_one vs i v e clickhouse_internal h = tt
  at_one vs i v e topic h = tt
  at_one vs i v e group_id h = tt
  at_one vs i v e offset_reset h = tt
  at_one vs i v e clickhouse_password h = tt

  check_env-Entry :
      {F : Type 0} (place : Place) (vs : List (Variant V)) (env : Map Text) (i : ℕ) (v : Variant V)
      → get_elem? vs i ≡ some v
      → check_env {F = F} cs place vs env ≡ []
      → All (Entry v) env
  unfolding check_env
  check_env-Entry place vs [] i v e h = tt
  check_env-Entry {F} place vs ((key, raw) ∷ env) i v e h =
      let (p, q) =
        (append-nil_iff (check_tokens {F = F} cs place key raw vs (placeholder_tokens raw))
            (check_env {F = F} cs place vs env)).0
          h in
      (
        λ ps is t.
            let text =
              ap (λ r. check_tokens {F = F} cs place key raw vs (placeholder_tokens r)) is in
            let parts = ap (check_tokens {F = F} cs place key raw vs) (tokens-print ps t) in
            All-map (λ inner (k, named, known). (k, named, at_one vs i v e k known)) (holes ps)
              (check_tokens-nil cs vs {F = F} place key raw (holes ps)
                (sym parts ∙ (sym text ∙ p))),
        check_env-Entry {F = F} place vs env i v e q,
      )

  check_variant_envs-nil :
      {F : Type 0} (vs : List (Variant V))
      → check_variant_envs {F = F} cs vs ≡ []
      → All (λ v. check_env {F = F} cs (of_variant v.id) (v ∷ []) v.env ≡ []) vs
  unfolding check_variant_envs
  check_variant_envs-nil [] h = tt
  check_variant_envs-nil {F} (v ∷ vs) h =
      let (p, q) =
        (append-nil_iff (check_env {F = F} cs (of_variant v.id) (v ∷ []) v.env)
            (check_variant_envs {F = F} cs vs)).0
          h in
      (p, check_variant_envs-nil {F = F} vs q)

-- Every placeholder of a validated environment is of the vocabulary, and names a knob of the variant and
-- a container of the envelope.
pub validate_env-IsKnown :
    {F V : Type 0} (envelope : Option Envelope) (env : Map Text) (vs : List (Variant V))
    → validate_env {F = F} envelope env vs ≡ []
    → (i : ℕ) (v : Variant V) → get_elem? vs i ≡ some v
    → (k : ℕ) (key : Text) (ps : List Part) → get_elem? (env ++ v.env) k ≡ some (key, print ps)
    → IsTemplate ps
    → All (IsKnown (declared_containers envelope) (v ∷ [])) (holes ps)
unfolding validate_env
validate_env-IsKnown {F} envelope env vs h i v e k key ps at t =
    let cs = declared_containers envelope in
    let (p, q) =
      (append-nil_iff (check_env {F = F} cs entrant_wide vs env)
          (check_variant_envs {F = F} cs vs)).0
        h in
    let whole = check_env-Entry cs {F = F} entrant_wide vs env i v e p in
    let own =
      All-get_elem? (λ w. check_env {F = F} cs (of_variant w.id) (w ∷ []) w.env ≡ []) vs i
        (check_variant_envs-nil cs {F = F} vs q) e in
    let mine = check_env-Entry cs {F = F} (of_variant v.id) (v ∷ []) v.env 0 v refl own in
    All-get_elem? (Entry cs v) (env ++ v.env) k (All-append (Entry cs v) env v.env whole mine) at ps
      refl t
