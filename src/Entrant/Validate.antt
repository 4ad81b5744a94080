-- ===== src/Entrant/Validate.antt =====
-- `validate` of harness/src/entrant.rs: everything that is wrong with one descriptor.
pub mod Arms
mod Examples
pub mod Problems
pub mod Sample
pub mod Parts
pub mod Envelope
pub mod Variants
pub mod Env
pub mod Passed
use spate_benchmark.Prelude.{
  ℕ, Bool, true, false, not, Option, none, some, List, [], ◌∷◌, ◌++◌, map, Text, text_eq,
  if◌then◌else◌, is_empty, ◌==◌, leb,
}
use spate_benchmark.Prelude.Int.{ℤ}
use spate_benchmark.Ceiling.Float.{Float}
use spate_benchmark.Entrant.Descriptor.{is_runnable, Build, Spec, Entrant, id}
use spate_benchmark.Entrant.Validate.Problems.{
  Problem, other_schema, other_directory, id_spelling, no_licence, no_language, hue_beyond,
  no_planned, no_build, no_readme, no_dockerfile,
}
use spate_benchmark.Entrant.Validate.Parts.{
  report_if, is_trimmed_empty, validate_version, validate_guarantees, validate_constraints,
  validate_deviations,
}
use spate_benchmark.Entrant.Validate.Envelope.{Cpus, validate_envelope, validate_clickhouse}
use spate_benchmark.Entrant.Validate.Variants.{is_id, validate_variants}
use spate_benchmark.Entrant.Validate.Env.{validate_env}

-- What is read beside the descriptor: floats, toml's integers, and the files of the entrant's directory.
pub record Reads (V : Type 0) : Type 1 where
  pub fl : Float
  pub cpus : Cpus fl.F
  pub as_integer : V → Option ℤ
  pub is_readme_file : Bool  -- `e.dir.join("README.md").is_file()`
  pub is_file : Text → Bool  -- `e.dir.join(rel).is_file()`

module _ {V : Type 0} (reads : Reads V) where
  abbrev P : Type 0
  P = Problem reads.fl.F

  -- What is asked of every descriptor.
  pub check_identity : Entrant V → List P
  check_identity e =
      report_if (not (e.spec.schema == 1)) (other_schema e.spec.schema)
      ++ (report_if (not (text_eq e.dir_name (id e))) (other_directory e.dir_name)
          ++ (report_if (not (is_id (id e))) id_spelling
              ++ (report_if (is_trimmed_empty e.spec.entrant.licence) no_licence
                  ++ (report_if (is_empty e.spec.entrant.language) no_language
                      ++ report_if (leb 360 e.spec.display.hue) (hue_beyond e.spec.display.hue)))))

  pub check_build : Option Build → List P
  check_build none = no_build ∷ report_if (not reads.is_readme_file) no_readme
  check_build (some b) =
      report_if (not reads.is_readme_file) no_readme
      ++ report_if (not (reads.is_file b.dockerfile)) (no_dockerfile b.dockerfile)

  -- What is asked of a descriptor that claims to be measurable.
  pub check_measurable : Spec V → List P
  unfolding check_build
  check_measurable s =
      check_build s.build
      ++ (validate_version s.version
          ++ (validate_guarantees s.guarantees
              ++ (validate_envelope reads.fl reads.cpus s.envelope
                  ++ (validate_variants s.variants
                      ++ (validate_env s.envelope s.env s.variants
                          ++ (validate_constraints reads.as_integer s.constraints s.variants
                              ++ (validate_deviations s.envelope s.deviations
                                  ++ validate_clickhouse reads.is_file s.clickhouse)))))))

  pub check_status : Entrant V → List P
  unfolding check_measurable
  check_status e =
      if not (is_runnable e.spec.entrant.status)
      then report_if (not e.spec.planned) no_planned
      else check_measurable e.spec

  -- `at`: each sentence names the entrant.
  unfoldable pub validate : Entrant V → List (Text × P)
  unfolding check_identity check_status
  validate e = map (λ p. (id e, p)) (check_identity e ++ check_status e)
