-- ===== src/Validate.antt =====
-- harness/src/validate.rs: the rules of the archive. A file is its path and its lines, where it can be
-- read; serde's reading of a line is a parameter. A problem is the data that its sentence shows.
pub mod Rules
pub mod Fresh
pub mod Accepted
pub mod Complete
mod Examples
use spate_benchmark.Prelude.{
  ℕ, zero, suc, ◌+◌, Bool, true, false, not, Option, none, some, List, [], ◌∷◌, ◌++◌, map, ◌&&◌,
  ◌||◌, Text, codes, text_eq, if◌then◌else◌, ltb, leb, ◌==◌, is_empty, any, all, length,
}
use spate_benchmark.Prelude.Strings.{is_blank}
use spate_benchmark.Report.{
  Report, Metric, Status, carries_metrics, Trigger, publication_bar, Flag,
  unpublishable_environment,
}

pub present : Option Text → Bool
present none = false
present (some v) = not (is_blank v)

pub starts_with : Text → Text → Bool
starts_with [] s = true
starts_with (c ∷ p) [] = false
starts_with (c ∷ p) (d ∷ s) = c == d && starts_with p s

abbrev pub allowed_units : List Text
allowed_units =
    codes "MB/s"
    ∷ codes "bytes"
    ∷ codes "cores"
    ∷ codes "ratio"
    ∷ codes "records/s"
    ∷ codes "rows"
    ∷ codes "us"
    ∷ []

pub data Defect : Type 0 where
  from_future : ℕ → Defect
  no_invocation : ℕ → Defect
  barred : Trigger → Defect
  fixture : Defect
  no_digest : Defect
  bad_digest : Text → Defect
  no_identity : Defect
  empty_field : Text → Defect
  bad_unit : Text → Text → Defect
  no_metrics : Status → Defect
  stray_metrics : Status → ℕ → Defect
  bad_rep : ℕ → ℕ → Defect

-- `problems.push(…)` under a test.
pub flag_if : Bool → Defect → List Defect
flag_if true d = d ∷ []
flag_if false d = []

pub is_unpublishable : Flag → Bool
is_unpublishable unpublishable_environment = true
is_unpublishable _ = false

pub check_trigger : Trigger → List Defect
check_trigger t = elim (publication_bar t) [ none ↦ [] | some bar ↦ barred t ∷ [] ]

pub check_digest : Text → List Defect
check_digest digest =
    if is_blank digest
    then no_digest ∷ []
    else flag_if (not (starts_with (codes "sha256:") digest)) (bad_digest digest)

pub check_units : {F : Type 0} → List (Text × Metric F) → List Defect
check_units [] = []
check_units ((name, m) ∷ ms) =
    flag_if (not (any (λ u. text_eq u m.unit) allowed_units)) (bad_unit name m.unit)
    ++ check_units ms

-- The match on `(carries_metrics, metrics.is_empty())`.
pub check_metrics : Bool → Bool → Status → ℕ → List Defect
check_metrics true true status n = no_metrics status ∷ []
check_metrics false false status n = stray_metrics status n ∷ []
check_metrics _ _ status n = []

-- What each of the rules pushes, in their order; `SCHEMA_VERSION` is 2.
pub rules : {F V : Type 0} → Report F V → List (List Defect)
rules r =
    flag_if (ltb 2 r.schema) (from_future r.schema)
    ∷ flag_if (leb 2 r.run.harness_version && is_blank r.run.invocation_id)
        (no_invocation r.run.harness_version)
    ∷ check_trigger r.run.trigger
    ∷ flag_if (any is_unpublishable r.flags) fixture
    ∷ check_digest r.sut.image_digest
    ∷ flag_if (not (present r.sut.version) && not (present r.sut.commit)) no_identity
    ∷ flag_if (is_blank r.run.env_id) (empty_field (codes "run.env_id"))
    ∷ flag_if (is_blank r.run.env_digest) (empty_field (codes "run.env_digest"))
    ∷ flag_if (is_blank r.run.dataset_version) (empty_field (codes "run.dataset_version"))
    ∷ check_units r.metrics
    ∷ check_metrics (carries_metrics r.status) (is_empty r.metrics) r.status (length r.metrics)
    ∷ flag_if (r.rep == 0 || ltb r.reps r.rep) (bad_rep r.rep r.reps)
    ∷ []

pub push_all : List (List Defect) → List Defect
push_all [] = []
push_all (ds ∷ rest) = ds ++ push_all rest

pub check_record : {F V : Type 0} → Report F V → List Defect
unfolding rules push_all
check_record r = push_all (rules r)

-- A file and a line number in it.
pub record Site : Type 0 where
  pub path : Text
  pub line : ℕ

pub data Problem : Type 0 where
  unreadable : Text → Problem
  malformed : Site → Problem
  duplicate : Site → Text → Site → Problem
  defect : Site → Text → Defect → Problem

pub record Summary : Type 0 where
  pub files : ℕ
  pub records : ℕ

pub record State : Type 0 where
  pub problems : List Problem
  pub summary : Summary
  pub seen : List (Text × Site)

pub record File : Type 0 where
  pub path : Text
  pub lines : Option (List Text)

pub data Outcome : Type 0 where
  valid : Summary → Outcome
  invalid : List Problem → Outcome

-- The value that `seen.insert` returns: the last one inserted under the key.
pub seen_at : Text → List (Text × Site) → Option Site
seen_at id [] = none
seen_at id ((key, at) ∷ rest) =
    let older = seen_at id rest in if text_eq key id then some at else older

pub duplicates : Site → Text → Option Site → List Problem
duplicates at id none = []
duplicates at id (some first) = duplicate at id first ∷ []

abbrev pub start : State
start = record { problems = []; summary = record { files = 0; records = 0 }; seen = [] }

-- `if problems.is_empty() { Ok(summary) } else { Err(problems) }`
pub finish : List Problem → Summary → Outcome
finish [] summary = valid summary
finish problems summary = invalid problems

module _ {F V : Type 0} (parse : Text → Option (Report F V)) where
  pub read_line : State → Site → Option (Report F V) → State
  read_line st at none = record {
    problems = st.problems ++ malformed at ∷ [];
    summary = st.summary;
    seen = st.seen;
  }
  read_line st at (some r) = record {
    problems =
        st.problems
        ++ duplicates at r.run_id (seen_at r.run_id st.seen)
        ++ map (defect at r.run_id) (check_record r);
    summary = record { files = st.summary.files; records = st.summary.records + 1 };
    seen = (r.run_id, at) ∷ st.seen;
  }

  pub visit_line : State → Text → ℕ → Text → State
  visit_line st path n line =
      if is_blank line then st else read_line st (record { path = path; line = n }) (parse line)

  -- `n` is the number of the first line.
  pub visit_lines : State → Text → ℕ → List Text → State
  visit_lines st path n [] = st
  visit_lines st path n (line ∷ lines) = visit_lines (visit_line st path n line) path (n + 1) lines

  pub visit_read : State → Text → Option (List Text) → State
  visit_read st path none = record {
    problems = st.problems ++ unreadable path ∷ [];
    summary = st.summary;
    seen = st.seen;
  }
  visit_read st path (some lines) = visit_lines st path 1 lines

  pub visit_file : State → File → State
  visit_file st f =
      visit_read
        (record {
          problems = st.problems;
          summary = record { files = st.summary.files + 1; records = st.summary.records };
          seen = st.seen;
        })
        f.path f.lines

  pub visit_files : State → List File → State
  visit_files st [] = st
  visit_files st (f ∷ fs) = visit_files (visit_file st f) fs

  -- The files in the order of their paths.
  pub results_are_valid : List File → Outcome
  results_are_valid files = let st = visit_files start files in finish st.problems st.summary
