-- ===== src/Entrant/Validate/Examples.antt =====
-- Runs of `validate`, and its theorems at a sample.
use spate_benchmark.Prelude.{
  ℕ, ◌≡◌, refl, true, false, none, some, [], ◌∷◌, codes, text_eq, if◌then◌else◌,
}
use spate_benchmark.Prelude.Int.{ℤ}
use spate_benchmark.Scaled.{thousandths}
use spate_benchmark.Selector.Split.{split}
use spate_benchmark.Prelude.Strings.{
  trim, trim_end, trim_start, is_whitespace, parse_u64, parse_number, parse_digits, strip_prefix,
}
use spate_benchmark.Ceiling.Format.{wire_format}
use spate_benchmark.Entrant.Descriptor.{Envelope}
use spate_benchmark.Entrant.Knobs.{keys}
use spate_benchmark.Entrant.Memory.{parse_memory}
use spate_benchmark.Entrant.Placeholders.Template.{print}
use spate_benchmark.Entrant.Placeholders.{parse, outside, placeholder_tokens}
use spate_benchmark.Entrant.Validate.Sample.{reads, task_manager, main_variant, threads_part}
use spate_benchmark.Entrant.Validate.Envelope.{validate_envelope, validate_clickhouse}
use spate_benchmark.Entrant.Validate.Variants.{validate_variants, fold_wire_format}
use spate_benchmark.Entrant.Validate.Env.{validate_env}
use spate_benchmark.Entrant.Validate.{Reads}
use spate_benchmark.Entrant.Validate.Problems.{
  near_miss, escapes_directory, qualified_table, no_knob, entrant_wide,
}

-- Neither the text of the processors nor an id that is empty is refused.
abbrev reads_nan : Reads ℤ
reads_nan = record reads {
  cpus = record {
    parse = λ s. if text_eq s (codes "4") then some 4000 else none;
    nan = 9999;
    abs = λ x. x;
    zero_sum = 0;
  };
}

unparseable_cpus :
    validate_envelope thousandths reads_nan.cpus
      (some (record { cpus = codes "four"; memory = codes "2g"; containers = task_manager ∷ [] }))
    ≡ []
unfolding validate_envelope text_eq trim trim_end trim_start is_whitespace parse_u64 parse_number
    parse_digits parse_memory
unparseable_cpus = refl

empty_id : validate_variants {F = ℕ} (record main_variant { id = [] } ∷ []) ≡ []
unfolding validate_variants text_eq wire_format fold_wire_format
empty_id = refl

near_miss_refused :
    validate_variants {F = ℕ}
      (record main_variant { reports = (codes "wire_format", codes "JSONEachRow") ∷ [] } ∷ [])
    ≡ near_miss (codes "main") (codes "JSONEachRow") (codes "json_each_row") ∷ []
unfolding validate_variants text_eq wire_format fold_wire_format
near_miss_refused = refl

parent_refused :
    validate_clickhouse {F = ℕ}
      (λ s. true)
      (some (record {
        arm_sql = codes "sql/arm.sql ";
        arm_teardown_sql = codes "sql/../../drop.sql";
        attribution_tables = codes "db.landing" ∷ [];
        forwarded_inserts = false;
      }))
    ≡ escapes_directory (codes "sql/../../drop.sql") ∷ qualified_table (codes "db.landing") ∷ []
unfolding validate_clickhouse text_eq split trim trim_end trim_start is_whitespace
parent_refused = refl

unknown_knob :
    validate_env {F = ℕ} none
      ((codes "T", print threads_part) ∷ [])
      (record main_variant { env = []; knobs = [] } ∷ [])
    ≡ no_knob entrant_wide (codes "T") (codes "threads") (codes "main") ∷ []
unfolding validate_env text_eq keys parse outside placeholder_tokens strip_prefix
unknown_knob = refl
