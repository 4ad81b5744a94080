-- ===== src/Validate/Rules.antt =====
-- `check_record` of harness/src/validate.rs, against the rules that it stands for.
use spate_benchmark.Prelude.{append-nil_iff}
use spate_benchmark.Prelude.{
  ℕ, Bool, true, false, not, List, [], ◌∷◌, ◌&&◌, ◌||◌, Text, codes, ◌≡◌, ◌↔◌, refl, text_eq, leb,
  ltb, ◌==◌, is_empty, any, All, Bool-cases, inl, inr,
}
use spate_benchmark.Prelude.Strings.{is_blank}
use spate_benchmark.Report.{
  Report, Metric, Status, Trigger, nightly, manual, pr, tuning, release, carries_metrics,
  bars_publication, publication_bar,
}
use spate_benchmark.Validate.{
  present, starts_with, allowed_units, Defect, bad_digest, bad_unit, flag_if, is_unpublishable,
  check_trigger, check_digest, check_units, check_metrics, rules, push_all, check_record,
}

push_all-nil : (rss : List (List Defect)) → (push_all rss ≡ []) ↔ All (λ ds. ds ≡ []) rss
unfolding push_all
push_all-nil [] = (λ h. tt, λ h. refl)
push_all-nil (ds ∷ rss) =
    let split = append-nil_iff ds (push_all rss) in
    let rest = push_all-nil rss in
    (λ h. let (a, b) = split.0 h in (a, rest.0 b), λ (a, b). split.1 (a, rest.1 b))

flag_if-nil : (b : Bool) (d : Defect) → (flag_if b d ≡ []) ↔ (b ≡ false)
unfolding flag_if
flag_if-nil true d = (λ h. cc, λ h. cc)
flag_if-nil false d = (λ h. refl, λ h. refl)

check_trigger-nil : (t : Trigger) → (check_trigger t ≡ []) ↔ (bars_publication t ≡ false)
unfolding check_trigger bars_publication publication_bar
check_trigger-nil nightly = (λ h. refl, λ h. refl)
check_trigger-nil manual = (λ h. refl, λ h. refl)
check_trigger-nil pr = (λ h. cc, λ h. cc)
check_trigger-nil tuning = (λ h. cc, λ h. cc)
check_trigger-nil release = (λ h. refl, λ h. refl)

unless-nil : (b : Bool) (d : Defect) → (flag_if (not b) d ≡ []) ↔ (b ≡ true)
unfolding flag_if
unless-nil true d = (λ h. refl, λ h. refl)
unless-nil false d = (λ h. cc, λ h. cc)

check_digest-nil :
    (s : Text)
    → (check_digest s ≡ []) ↔ ((is_blank s ≡ false) × (starts_with (codes "sha256:") s ≡ true))
unfolding check_digest
check_digest-nil s = elim (Bool-cases (is_blank s)) [
  | inl blank ↦ rw blank (λ h. cc, λ h. cc (h.0))
  | inr filled ↦ rw filled (
      let named = unless-nil (starts_with (codes "sha256:") s) (bad_digest s) in
      (λ h. (refl, named.0 h), λ h. named.1 (h.1)))
]

abbrev pub HasUnit : {F : Type 0} → Text × Metric F → Type 0
HasUnit (name, m) = any (λ u. text_eq u m.unit) allowed_units ≡ true

check_units-nil :
    {F : Type 0} (ms : List (Text × Metric F)) → (check_units ms ≡ []) ↔ All HasUnit ms
unfolding check_units
check_units-nil [] = (λ h. tt, λ h. refl)
check_units-nil ((name, m) ∷ ms) =
    let split =
      append-nil_iff (flag_if (not (any (λ u. text_eq u m.unit) allowed_units)) _)
        (check_units ms) in
    let here = unless-nil (any (λ u. text_eq u m.unit) allowed_units) (bad_unit name m.unit) in
    let rest = check_units-nil ms in
    (λ h. let (a, b) = split.0 h in (here.0 a, rest.0 b), λ (a, b). split.1 (here.1 a, rest.1 b))

check_metrics-nil :
    (carries empty : Bool) (s : Status) (n : ℕ)
    → (check_metrics carries empty s n ≡ []) ↔ (empty ≡ not carries)
unfolding check_metrics
check_metrics-nil true true s n = (λ h. cc, λ h. cc)
check_metrics-nil true false s n = (λ h. refl, λ h. refl)
check_metrics-nil false true s n = (λ h. refl, λ h. refl)
check_metrics-nil false false s n = (λ h. cc, λ h. cc)

-- What the archive asks of a record: a schema that this harness knows, an invocation where the protocol
-- has one, no bar on its publication, an identity, the fields that decide comparison, known
-- units, metrics exactly where its status carries them, and a repetition within its count.
pub record IsPublishable {F V : Type 0} (r : Report F V) : Type 0 where
  pub schema : ltb 2 r.schema ≡ false
  pub invocation : (leb 2 r.run.harness_version && is_blank r.run.invocation_id) ≡ false
  pub trigger : bars_publication r.run.trigger ≡ false
  pub environment : any is_unpublishable r.flags ≡ false
  pub digest :
      (is_blank r.sut.image_digest ≡ false)
      × (starts_with (codes "sha256:") r.sut.image_digest ≡ true)
  pub identity : (not (present r.sut.version) && not (present r.sut.commit)) ≡ false
  pub env_id : is_blank r.run.env_id ≡ false
  pub env_digest : is_blank r.run.env_digest ≡ false
  pub dataset : is_blank r.run.dataset_version ≡ false
  pub units : All HasUnit r.metrics
  pub metrics : is_empty r.metrics ≡ not (carries_metrics r.status)
  pub repetition : (r.rep == 0 || ltb r.reps r.rep) ≡ false

-- No rule reports a record exactly when it is publishable.
pub check_record-IsPublishable :
    {F V : Type 0} (r : Report F V) → (check_record r ≡ []) ↔ IsPublishable r
unfolding check_record rules
check_record-IsPublishable r = (
  λ h.
      let (a, (b, (c, (d, (e, (f, (g, (i, (j, (k, (l, (m, _)))))))))))) =
        (push_all-nil (rules r)).0 h in
      record {
        schema = (flag_if-nil _ _).0 a;
        invocation = (flag_if-nil _ _).0 b;
        trigger = (check_trigger-nil r.run.trigger).0 c;
        environment = (flag_if-nil _ _).0 d;
        digest = (check_digest-nil r.sut.image_digest).0 e;
        identity = (flag_if-nil _ _).0 f;
        env_id = (flag_if-nil _ _).0 g;
        env_digest = (flag_if-nil _ _).0 i;
        dataset = (flag_if-nil _ _).0 j;
        units = (check_units-nil r.metrics).0 k;
        metrics = (check_metrics-nil _ _ r.status _).0 l;
        repetition = (flag_if-nil _ _).0 m;
      },
  λ p. (push_all-nil (rules r)).1 (
    (flag_if-nil _ _).1 p.schema,
    (
      (flag_if-nil _ _).1 p.invocation,
      (
        (check_trigger-nil r.run.trigger).1 p.trigger,
        (
          (flag_if-nil _ _).1 p.environment,
          (
            (check_digest-nil r.sut.image_digest).1 p.digest,
            (
              (flag_if-nil _ _).1 p.identity,
              (
                (flag_if-nil _ _).1 p.env_id,
                (
                  (flag_if-nil _ _).1 p.env_digest,
                  (
                    (flag_if-nil _ _).1 p.dataset,
                    (
                      (check_units-nil r.metrics).1 p.units,
                      (
                        (check_metrics-nil _ _ r.status _).1 p.metrics,
                        ((flag_if-nil _ _).1 p.repetition, tt),
                      ),
                    ),
                  ),
                ),
              ),
            ),
          ),
        ),
      ),
    ),
  ),
)
