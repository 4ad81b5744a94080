-- ===== src/Lib.antt =====
-- A verification library for spate-benchmark, the harness that measures streaming ETL systems on one
-- pipeline, Kafka to Avro to ClickHouse. The parts below are its decision logic: which arms a command
-- acts on, what the infrastructure can absorb, what the corpus is and what a correct arm must land.
--
-- The program's parts, and the files that model them:
-- * harness/src/select.rs, the selector grammar. Selector is the record `Selector`; Selector/Split has
--   `split_once` and `split` of the language; Selector/Parse has `Selector::parse` and its `Display`;
--   Selector/Expand has `expand`, whose three nested loops are `expand_from`, `visit_entrants` and
--   `visit_variants` over the arms so far and the hits, with proofs in Selector/Expand/Selected and
--   Selector/Expand/Complete. It reads the descriptors of Entrant/Descriptor.
-- * harness/src/entrant.rs, the descriptors: Entrant/Descriptor has their data; Entrant/Knobs has
--   `knob_violations`, with a proof in Entrant/Knobs/Met; Entrant/Placeholders has `Placeholder` and
--   `placeholder_tokens`, with lemmas in Entrant/Placeholders/Tokens and, for values of several
--   placeholders, in Entrant/Placeholders/Template; Entrant/Memory has `parse_memory`, with a proof in
--   Entrant/Memory/Print; Entrant/Validate has `validate`, whose parts stand in Parts, Envelope, Variants
--   and Env below it and what they report in Problems, with proofs in Entrant/Validate/Arms from the
--   lemmas of Passed, Envelope/Plane, Variants/Valid and Env/Known; Entrant/Load has `load_all` and
--   `cross_check`, with proofs in Entrant/Load/Crossed and Entrant/Load/Accepted.
-- * harness/src/ceiling.rs, the ceilings: Ceiling/Format has the insert formats and `--only`;
--   Ceiling/Sweep has `Sweep` and the loop of `measure_ingest` that drives it, with proofs in
--   Ceiling/Sweep/Laws and Ceiling/Sweep/Best; Ceiling/Partitions has `partition_split`;
--   Ceiling/Encoding/Varint has `put_varint`; Ceiling/Encoding/LowCardinality has `IndexWidth` and
--   `Dictionary`, with proofs in its Interning and Group against the readers of
--   Ceiling/Encoding/Reader; Ceiling/File has `Ceilings`, its `merge` and its stale entries, with a
--   proof in Ceiling/File/Merged; Ceiling/Gate has `gate` and `headroom`, with proofs in
--   Ceiling/Gate/Usable, Ceiling/Gate/Applied, Ceiling/Gate/Proven and
--   Ceiling/Gate/Bound.
-- * harness/src/corpus.rs, the corpus: Corpus/Generator has the columns as functions of `batch_id` and
--   `seq`; Corpus/Avro has the values that `encode_batch` builds; Corpus/Expected has `Expected` and its
--   loops, with proofs in Corpus/Expected/Ranges; Corpus/Workload has the constants that
--   harness/build.rs generates, as a parameter; Corpus/Gates has `Gates`, with a proof in
--   Corpus/Gates/Failure; Corpus/Sql has `split_sql`, with a proof in Corpus/Sql/Pieces.
-- * harness/src/driver.rs, the driver: Driver/Quiesce has `quiesce` over a sequence of polls, with proofs
--   in Driver/Quiesce/Settled; Driver/Windows has `sampler_window_ms` and the arithmetic of a sustained
--   run, held in Driver/Windows/Agrees against the window of ServerSide/Span by the lemmas of
--   ServerSide/Span/Folds; Driver/Overrides has `knobs_for` and `unrunnable_knobs`, with proofs in
--   Driver/Overrides/Effective over those of Entrant/Knobs/Met; Driver/Substitute has `substitute`, with
--   proofs in Driver/Substitute/One and Driver/Substitute/Filled; Driver/Hold has `hold_drain_window` and
--   `hold_sustained_window` over what is asked in each round, with proofs in Driver/Hold/Drained and
--   Driver/Hold/Sustained over the rounds of Driver/Hold/Rounds; Driver/Specs has `build_specs`, with a
--   proof in Driver/Specs/Valid, from Driver/Specs/Ordered, Driver/Substitute/Plain and what the
--   validation of the descriptor gives.
-- * harness/src/report.rs, the record: Report has its data and what statuses and triggers permit.
-- * harness/src/validate.rs, the rules of the archive: Validate has `check_record`, whose rules are
--   `rules`, and `results_are_valid`; Validate/Rules, Validate/Fresh, Validate/Accepted and
--   Validate/Complete have the proofs. The reading of a line by serde is a parameter.
-- * entrants/spate/src/rows.rs, the Spate arm: Arm has `flatten_value`; Arm/Agrees holds it against the
--   corpus.
-- * harness/src/sampler.rs, what the containers of an arm cost: Sampler has the rows, `summarise` and the
--   operations of `SutCost`, with a proof in Sampler/Sum; Sampler/Peak has `simultaneous_peak_anon`, with
--   proofs in Sampler/Peak/Levels, Sampler/Peak/Reference and, for one container, Sampler/Peak/Single.
-- * harness/src/serverside.rs, what an arm's inserts cost the server: ServerSide has the data,
--   ServerSide/Span `Window`, ServerSide/Events `parse_profile_events`, ServerSide/Response
--   `parse_response`, ServerSide/Cost `summarise` and the rates, and ServerSide/Measure `attribution_sql`,
--   `flush_logs` and `measure` over the states of a server that is a parameter; the proofs are in
--   ServerSide/Events/RoundTrip, ServerSide/Response/Lengths, ServerSide/Cost/Accounts and
--   ServerSide/Measure/Accounted.
-- * harness/src/jvm.rs, the collector's log of an arm on the JVM: Jvm has the data, the decorations and the
--   sizes, Jvm/Lines `read_heap_config` and `parse_pause`, Jvm/Log `parse_gc_log`, and Jvm/Summary
--   `summarise`, `percentile` and `by_label`, with proofs in Jvm/Log/Accounted and Jvm/Summary/Counted.
-- * harness/src/results.rs, the archive: Results has `root_for`, `path_for` and `year_month`, with proofs in
--   Results/Years and Results/Months against a calendar.
-- * Prelude has the shared notation and lemmas, Scaled the values for runs, and the modules named
--   Examples the runs and the instances of theorems.
--
-- Conventions. Numbers are the native ones. Unsigned arithmetic that may wrap is written with its
-- modulus, and signed integers are the type of Prelude/Int. A text that the program walks is the
-- list of its codes; Prelude/Strings has the language's methods on it. `f64` is a parameter,
-- Ceiling/Float, with no law assumed but in Ceiling/Gate/Bound, which assumes the order of numbers;
-- what is read of a float's text is a parameter too, the record `Reading` of Jvm. A message of an
-- error is the data that the message shows.
--
-- Bounds and fuel. `put_varint` has ten rounds, which are enough for a `u64`. The driving loop of a
-- sweep, the loop of `quiesce`, those of the two windows and that of `simultaneous_peak_anon` are
-- on fuel, and have a result of their own for running out. Decimal prints have twenty digits,
-- enough for a `u64`. The sums of the corpus are unbounded integers for the `i128` of the
-- code: what compares them is stated for fewer than 2^45 batches, whose sums an `i128` holds.
--
-- Not modelled: file system, Docker, Kafka, HTTP and ClickHouse calls; the bytes of an Avro datum,
-- which the `apache_avro` crate writes and reads; the parts of ceiling.rs and corpus.rs that are
-- not named above; the rest of the driver, the sampler's container, `provenance` of serverside.rs
-- and of jvm.rs, the writing and loading of results and the builders of a report.
pub mod Prelude
pub mod Entrant
pub mod Ceiling
pub mod Corpus
pub mod Arm
mod Scaled
pub mod Selector
pub mod Report
pub mod Validate
pub mod Driver
pub mod Sampler
pub mod ServerSide
pub mod Jvm
pub mod Results
