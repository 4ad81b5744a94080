-- ===== src/Entrant/Validate/Passed.antt =====
-- What a descriptor without a problem has passed.
use spate_benchmark.Prelude.{
  true, not, List, [], ◌++◌, text_eq, if◌then◌else◌, ◌==◌, ◌≡◌, ap, sym, ◌∙◌, append-nil_iff,
  map-nil, eq_of_text_eq,
}
use spate_benchmark.Entrant.Descriptor.{is_runnable, Spec, Entrant, id}
use spate_benchmark.Entrant.Validate.Problems.{no_planned}
use spate_benchmark.Entrant.Validate.Parts.{
  report_if, report_if-nil, validate_version, validate_guarantees, validate_constraints,
  validate_deviations,
}
use spate_benchmark.Entrant.Validate.Envelope.{validate_envelope, validate_clickhouse}
use spate_benchmark.Entrant.Validate.Variants.{is_id, validate_variants}
use spate_benchmark.Entrant.Validate.Env.{validate_env}
use spate_benchmark.Entrant.Validate.Env.Known.{true_of_not}
use spate_benchmark.Entrant.Validate.{
  Reads, check_identity, check_build, check_measurable, check_status, validate,
}

module _ {V : Type 0} (reads : Reads V) where
  -- The parts that ask something of a measurable descriptor find nothing.
  pub record Passes (s : Spec V) : Type 0 where
    pub build : check_build reads s.build ≡ []
    pub version : validate_version {F = reads.fl.F} s.version ≡ []
    pub guarantees : validate_guarantees {F = reads.fl.F} s.guarantees ≡ []
    pub envelope : validate_envelope reads.fl reads.cpus s.envelope ≡ []
    pub variants : validate_variants {F = reads.fl.F} s.variants ≡ []
    pub env : validate_env {F = reads.fl.F} s.envelope s.env s.variants ≡ []
    pub constraints :
        validate_constraints {F = reads.fl.F} reads.as_integer s.constraints s.variants ≡ []
    pub deviations : validate_deviations {F = reads.fl.F} s.envelope s.deviations ≡ []
    pub clickhouse : validate_clickhouse {F = reads.fl.F} reads.is_file s.clickhouse ≡ []

  rest_of : {A : Type 0} (xs ys : List A) → xs ++ ys ≡ [] → (xs ≡ []) × (ys ≡ [])
  rest_of xs ys h = (append-nil_iff xs ys).0 h

  check_measurable-Passes : (s : Spec V) → check_measurable reads s ≡ [] → Passes s
  unfolding check_measurable
  check_measurable-Passes s h =
      let (build, h1) = rest_of (check_build reads s.build) _ h in
      let (version, h2) = rest_of (validate_version {F = reads.fl.F} s.version) _ h1 in
      let (guarantees, h3) = rest_of (validate_guarantees {F = reads.fl.F} s.guarantees) _ h2 in
      let (envelope, h4) = rest_of (validate_envelope reads.fl reads.cpus s.envelope) _ h3 in
      let (variants, h5) = rest_of (validate_variants {F = reads.fl.F} s.variants) _ h4 in
      let (env, h6) = rest_of (validate_env {F = reads.fl.F} s.envelope s.env s.variants) _ h5 in
      let (constraints, h7) =
        rest_of (validate_constraints {F = reads.fl.F} reads.as_integer s.constraints s.variants) _
          h6 in
      let (deviations, clickhouse) =
        rest_of (validate_deviations {F = reads.fl.F} s.envelope s.deviations) _ h7 in
      record {
        build = build;
        version = version;
        guarantees = guarantees;
        envelope = envelope;
        variants = variants;
        env = env;
        constraints = constraints;
        deviations = deviations;
        clickhouse = clickhouse;
      }

  module _ (e : Entrant V) (valid : validate reads e ≡ []) where
    both : (check_identity reads e ≡ []) × (check_status reads e ≡ [])
    unfolding validate
    both =
        (append-nil_iff (check_identity reads e) (check_status reads e)).0
          ((map-nil (λ p. (id e, p)) (check_identity reads e ++ check_status reads e)).0 valid)

    pub validate-Passes : is_runnable e.spec.entrant.status ≡ true → Passes e.spec
    unfolding check_status
    validate-Passes runs = check_measurable-Passes e.spec (
        sym (
          ap
            (λ b.
              if not b
              then report_if (not e.spec.planned) no_planned
              else check_measurable reads e.spec)
            runs)
        ∙ both.1)

    -- The id is spelled as one, and is the name of the directory.
    pub validate-id : (e.dir_name ≡ id e) × (is_id (id e) ≡ true)
    unfolding check_identity
    validate-id =
        let (_, h1) = rest_of (report_if (not (e.spec.schema == 1)) _) _ (both.0) in
        let (dir, h2) = rest_of (report_if (not (text_eq e.dir_name (id e))) _) _ h1 in
        let (spelled, _) = rest_of (report_if (not (is_id (id e))) _) _ h2 in
        (
          eq_of_text_eq e.dir_name (id e) (true_of_not _ ((report_if-nil _ _).0 dir)),
          true_of_not _ ((report_if-nil _ _).0 spelled),
        )
