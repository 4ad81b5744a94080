-- ===== src/Entrant/Validate/Problems.antt =====
-- What the validation of harness/src/entrant.rs reports: a problem is the data that its sentence shows.
-- `F` is the type of floats.
use spate_benchmark.Prelude.{ℕ, List, Text}
use spate_benchmark.Entrant.Descriptor.{Approach}
use spate_benchmark.Entrant.Knobs.{Violation}

-- The place of an environment variable.
pub data Place : Type 0 where
  entrant_wide : Place
  of_variant : Text → Place

pub data Problem (F : Type 0) : Type 0 where
  other_schema : ℕ → Problem F
  other_directory : Text → Problem F
  id_spelling : Problem F
  no_licence : Problem F
  no_language : Problem F
  hue_beyond : ℕ → Problem F
  no_planned : Problem F
  no_build : Problem F
  no_readme : Problem F
  no_dockerfile : Text → Problem F
  no_version : Problem F
  unknown_strategy : Text → Problem F
  no_command : Problem F
  no_guarantees : Problem F
  other_delivery : Text → Problem F
  no_envelope : Problem F
  data_planes : ℕ → Problem F
  cpus_total : F → Text → Problem F
  memory_total : ℕ → Text → ℕ → Problem F
  memory_unparseable : Text → Problem F
  no_variants : Problem F
  duplicate_variant : Text → Problem F
  variant_spelling : Text → Problem F
  no_wire_format : Text → Problem F
  near_miss : Text → Text → Text → Problem F
  empty_unshipped : Text → Problem F
  not_stripped : Text → List Text → Approach → Problem F
  defaults_found : ℕ → Problem F
  default_approach : Text → Approach → Problem F
  never_closes : Place → Text → Text → Text → Problem F
  not_placeholder : Place → Text → Text → Text → Problem F
  no_knob : Place → Text → Text → Text → Problem F
  no_container : Place → Text → Text → Problem F
  empty_knob : Problem F
  not_one_relation : Text → Problem F
  exceeds_itself : Text → Problem F
  no_reason : Text → Problem F
  variant_violates : Text → Violation → Problem F
  empty_what : ℕ → Problem F
  undisclosed_control_plane : Problem F
  unpaired_sql : Text → Problem F
  escapes_directory : Text → Problem F
  sql_not_found : Text → Problem F
  empty_table : Problem F
  padded_table : Text → Problem F
  qualified_table : Text → Problem F
