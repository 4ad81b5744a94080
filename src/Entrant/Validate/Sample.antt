-- ===== src/Entrant/Validate/Sample.antt =====
-- A descriptor for runs on a concrete input, with integers for the values of knobs.
use spate_benchmark.Prelude.{true, false, none, some, List, [], ◌∷◌, codes, text_eq, ◌≡◌, refl}
use spate_benchmark.Prelude.Int.{ℤ, pos}
use spate_benchmark.Scaled.{thousandths}
use spate_benchmark.Entrant.Descriptor.{
  Status, data_plane, control_plane, realistic, stripped, Container, Variant, Entrant, is_runnable,
}
use spate_benchmark.Entrant.Placeholders.Template.{Part, hole, print}
use spate_benchmark.Prelude.Strings.{
  trim, trim_end, trim_start, is_whitespace, parse_u64, parse_number, parse_digits, strip_prefix,
}
use spate_benchmark.Ceiling.Format.{wire_format}
use spate_benchmark.Entrant.Knobs.{knob_violations, keys}
use spate_benchmark.Entrant.Memory.{parse_memory}
use spate_benchmark.Entrant.Placeholders.{parse, outside, placeholder_tokens}
use spate_benchmark.Entrant.Validate.Parts.{
  validate_version, validate_guarantees, validate_constraints, check_constraints, check_constraint,
  check_committed, validate_deviations, check_whats,
}
use spate_benchmark.Entrant.Validate.Envelope.{validate_envelope, validate_clickhouse}
use spate_benchmark.Entrant.Validate.Variants.{validate_variants, fold_wire_format}
use spate_benchmark.Entrant.Validate.Env.{validate_env}
use spate_benchmark.Entrant.Validate.{Reads, validate}

abbrev pub reads : Reads ℤ
reads = record {
  fl = thousandths;
  cpus = record { parse = λ s. some 4000; nan = 0; abs = λ x. x; zero_sum = 0 };
  as_integer = some;
  is_readme_file = true;
  is_file = λ s. true;
}

abbrev pub topic_part : List Part
topic_part = hole (codes "topic") ∷ []

abbrev pub address_part : List Part
address_part = hole (codes "container:jobmanager") ∷ []

abbrev pub threads_part : List Part
threads_part = hole (codes "knob:threads") ∷ []

abbrev pub main_variant : Variant ℤ
main_variant = record {
  id = codes "main";
  label = codes "main";
  approach = realistic;
  unshipped = [];
  default = true;
  env = (codes "THREADS", print threads_part) ∷ [];
  knobs = (codes "threads", pos 4) ∷ [];
  reports = (codes "wire_format", codes "native") ∷ [];
}

abbrev pub raw_variant : Variant ℤ
raw_variant = record main_variant {
  id = codes "raw";
  approach = stripped;
  unshipped = codes "our own decoder" ∷ [];
  default = false;
}

abbrev pub task_manager : Container
task_manager = record {
  role = data_plane;
  name = codes "taskmanager";
  cpus = codes "4";
  memory = codes "2g";
  args = [];
  gc_log = none;
}

abbrev pub job_manager : Container
job_manager = record task_manager { role = control_plane; name = codes "jobmanager" }

abbrev pub sample : Entrant ℤ
sample = record {
  dir_name = codes "flow";
  spec = record {
    schema = 1;
    entrant = record {
      id = codes "flow";
      licence = codes "MIT";
      language = codes "java" ∷ [];
      status = Status.active;
    };
    display = record { order = pos 1; hue = 20 };
    version =
        some (record { strategy = codes "command"; command = codes "flow" ∷ []; pinned = [] });
    build = some (record { context = []; dockerfile = codes "Dockerfile"; image = codes "flow" });
    envelope = some (record {
      cpus = codes "4";
      memory = codes "2048m";
      containers = task_manager ∷ job_manager ∷ [];
    });
    guarantees =
        some (record { delivery = codes "at-least-once"; durability = []; interval_ms = 0 });
    env = (codes "TOPIC", print topic_part) ∷ (codes "ADDRESS", print address_part) ∷ [];
    variants = main_variant ∷ raw_variant ∷ [];
    constraints =
        record {
          knob = codes "threads";
          exceeds = none;
          at_least = some (pos 1);
          why = codes "it starts no thread";
        }
        ∷ [];
    deviations =
        record { what = codes "A second container."; why = []; affects = codes "envelope" ∷ [] }
        ∷ [];
    clickhouse = none;
    planned = false;
  };
}

pub sample_valid : validate reads sample ≡ []
unfolding validate text_eq trim trim_end trim_start is_whitespace parse_u64 parse_number
    parse_digits strip_prefix wire_format is_runnable knob_violations keys parse_memory parse
    outside placeholder_tokens validate_version validate_guarantees validate_constraints
    check_constraints check_constraint check_committed validate_deviations check_whats
    validate_envelope validate_clickhouse validate_variants fold_wire_format validate_env
sample_valid = refl

pub sample_runs : is_runnable sample.spec.entrant.status ≡ true
unfolding is_runnable
sample_runs = refl
