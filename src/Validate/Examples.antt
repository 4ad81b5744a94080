-- ===== src/Validate/Examples.antt =====
-- Runs of the validator, with the run id for a line.
use spate_benchmark.Prelude.{
  ℕ, true, Option, none, some, List, [], ◌∷◌, Text, codes, ◌≡◌, refl, All, length, text_eq,
}
use spate_benchmark.Prelude.Int.{pos}
use spate_benchmark.Prelude.Strings.{is_blank, is_whitespace}
use spate_benchmark.Report.{
  Report, measurement, ok, manual, tuning, Trigger, publication_bar, carries_metrics,
}
use spate_benchmark.Validate.{Summary}
use spate_benchmark.Validate.{
  File, barred, check_record, results_are_valid, valid, visit_files, visit_file, visit_read,
  visit_lines, visit_line, read_line, finish, seen_at, duplicates, rules, push_all, flag_if,
  check_trigger, check_digest, check_units, check_metrics, present, starts_with, is_unpublishable,
}
use spate_benchmark.Validate.Rules.{IsPublishable, check_record-IsPublishable}
use spate_benchmark.Validate.Fresh.{Fresh}
use spate_benchmark.Validate.Complete.{results_are_valid_complete}
use spate_benchmark.Validate.Accepted.{records_of, results_are_valid-clean}

abbrev report : Trigger → Text → Report ℕ ℕ
report trigger id = record {
  schema = 2;
  bench = codes "drain";
  kind = measurement;
  status = ok;
  run_id = id;
  rep = 1;
  reps = 3;
  sut = record {
    entrant = codes "spate";
    variant_id = codes "v";
    version = some (codes "1");
    commit = none;
    image_digest = codes "sha256:0";
    image = codes "i";
    toolchain = none;
  };
  run = record {
    ts_ms = 0;
    invocation_id = codes "n";
    env_id = codes "e";
    env_digest = codes "d";
    harness_version = 1;
    dataset_version = codes "3";
    commit = none;
    trigger = trigger;
    infra = record {
      digest = [];
      broker = [];
      broker_version = [];
      broker_image_digest = [];
      broker_cpus = [];
      broker_memory = [];
      clickhouse_version = [];
      clickhouse_image_digest = [];
      clickhouse_cpus = [];
      clickhouse_memory = [];
      partitions = pos 8;
      registry = [];
      ceiling_msgs_per_s = 0;
      ceiling_bytes_per_s = 0;
      ceiling_rows_per_s = 0;
    };
  };
  variant = [];
  metrics =
      (
        codes "rate",
        record { value = 7; unit = codes "rows"; higher_is_better = true; ci95 = none; n = none },
      )
      ∷ [];
  note = none;
  flags = [];
}

abbrev read : Text → Option (Report ℕ ℕ)
read line = some (report manual line)

abbrev tree : List File
tree =
    record { path = codes "a"; lines = some (codes "r1" ∷ codes " " ∷ codes "r2" ∷ []) }
    ∷ record { path = codes "b"; lines = some (codes "r3" ∷ []) }
    ∷ []

tuning_barred : check_record (report tuning (codes "r")) ≡ barred tuning ∷ []
unfolding check_record rules push_all flag_if check_trigger check_digest check_units check_metrics
    is_blank is_whitespace present starts_with is_unpublishable text_eq publication_bar
    carries_metrics
tuning_barred = refl

manual_clean : (id : Text) → check_record (report manual id) ≡ []
unfolding check_record rules push_all flag_if check_trigger check_digest check_units check_metrics
    is_blank is_whitespace present starts_with is_unpublishable text_eq publication_bar
    carries_metrics
manual_clean id = refl

manual-IsPublishable : (id : Text) → IsPublishable (report manual id)
manual-IsPublishable id = (check_record-IsPublishable (report manual id)).0 (manual_clean id)

tree_valid : results_are_valid read tree ≡ valid (record { files = 2; records = 3 })
unfolding results_are_valid visit_files visit_file visit_read visit_lines visit_line read_line
    finish seen_at duplicates check_record rules push_all flag_if check_trigger check_digest
    check_units check_metrics is_blank is_whitespace present starts_with is_unpublishable text_eq
    publication_bar carries_metrics
tree_valid = refl

results_are_valid-clean_example :
    (rs : List (Report ℕ ℕ)) × (records_of read tree ≡ some rs)
    × All IsPublishable rs
    × Fresh [] rs
    × (2 ≡ length tree)
    × (3 ≡ length rs)
results_are_valid-clean_example =
    results_are_valid-clean read tree (record { files = 2; records = 3 }) tree_valid

abbrev tree_records : List (Report ℕ ℕ)
tree_records =
    report manual (codes "r1") ∷ report manual (codes "r2") ∷ report manual (codes "r3") ∷ []

tree_records_of : records_of read tree ≡ some tree_records
unfolding is_blank is_whitespace
tree_records_of = refl

tree-Fresh : Fresh [] tree_records
unfolding text_eq
tree-Fresh = (refl, (refl, (refl, tt)))

results_are_valid_complete_example :
    (summary : Summary) × (results_are_valid read tree ≡ valid summary)
results_are_valid_complete_example =
    results_are_valid_complete read tree tree_records tree_records_of
      (
        manual-IsPublishable (codes "r1"),
        (manual-IsPublishable (codes "r2"), (manual-IsPublishable (codes "r3"), tt)),
      )
      tree-Fresh
