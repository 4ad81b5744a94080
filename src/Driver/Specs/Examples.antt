-- ===== src/Driver/Specs/Examples.antt =====
-- Runs of `build_specs`.
use spate_benchmark.Prelude.{
  ◌≡◌, refl, none, some, List, [], ◌∷◌, ◌++◌, map, codes, Text, text_eq, arith, inl, inr, All,
}
use spate_benchmark.Prelude.Int.{ℤ}
use spate_benchmark.Prelude.Strings.{ends_with, strip_suffix, strip_prefix}
use spate_benchmark.Corpus.Decimal.{decimal}
use spate_benchmark.Entrant.Descriptor.{Container}
use spate_benchmark.Entrant.Placeholders.Template.{Part}
use spate_benchmark.Entrant.Validate.Sample.{
  sample, reads, main_variant, task_manager, job_manager, topic_part, address_part, threads_part,
  sample_valid, sample_runs,
}
use spate_benchmark.Driver.Overrides.{insert_all}
use spate_benchmark.Driver.Substitute.{drain, Run, knob_text}
use spate_benchmark.Driver.Substitute.Plain.{IsPlain}
use spate_benchmark.Driver.Specs.{
  Invocation, built, full_name, key_of, container_names, run_of, group_id, spec_of, build_specs,
}
use spate_benchmark.Driver.Specs.Ordered.{IsTold, controls, datas}
use spate_benchmark.Driver.Specs.Valid.{fill_entry, build_specs-valid}

abbrev inv : Invocation ℤ
inv = record {
  as_integer = some;
  as_str = λ _. none;
  ep = record {
    bootstrap_internal = codes "kafka:9092";
    registry_internal = codes "registry:8081";
    ch_internal = codes "clickhouse:8123";
    ch_password = codes "secret";
  };
  mode = drain;
  topic = codes "events";
  overrides = [];
  image = codes "flow:1";
  uuid = codes "0123";
  volumes = [];
}

abbrev containers : List Container
containers = task_manager ∷ job_manager ∷ []

abbrev run : Run ℤ
run = run_of inv sample main_variant containers

abbrev templates : List (Text × List Part)
templates =
    (codes "TOPIC", topic_part)
    ∷ (codes "ADDRESS", address_part)
    ∷ (codes "THREADS", threads_part)
    ∷ []

run-IsPlain : IsPlain run
unfolding run_of group_id container_names insert_all knob_text decimal text_eq
run-IsPlain = record {
  bootstrap = omega arith;
  registry = omega arith;
  clickhouse = omega arith;
  password = omega arith;
  topic_name = omega arith;
  group = omega arith;
  containers = omega arith;
  declared = omega arith;
  overridden = tt;
}

told : All (λ d. All (IsTold d) containers) containers
unfolding ends_with strip_suffix strip_prefix
told = ((inr refl, (inl refl, tt)), ((inl refl, (inr refl, tt)), tt))

build_specs-valid_example :
    build_specs inv sample main_variant
    ≡ built (
        map
          (spec_of inv (container_names containers) (map (fill_entry run) templates))
          (controls containers ++ datas containers))
build_specs-valid_example =
    build_specs-valid reads inv sample sample_valid sample_runs 0 main_variant refl templates refl
      (omega arith) run-IsPlain told

-- A container of the data plane whose name ends the other's hides the role of the control plane.
misled :
    key_of (record task_manager { name = codes "manager" } ∷ job_manager ∷ []) (record {
      name = full_name job_manager.name;
      image = [];
      cpus = [];
      memory = [];
      env = [];
      args = [];
      volumes = [];
    })
    ≡ 1
unfolding key_of ends_with strip_suffix strip_prefix
misled = refl
