-- ===== src/Corpus/Gates/Failure.antt =====
-- `Gates::failure` of harness/src/corpus.rs against `Gates::passed`.
use spate_benchmark.Prelude.{
  Bool, true, false, some, List, [], ◌≡◌, refl, ◌&&◌, is_empty, sym, ◌∙◌, ap,
}
use spate_benchmark.Corpus.Gates.{Gates, Reason, passed, unless, why, failure, failure_of}

is_empty-unless :
    (b p : Bool) (r : Reason) (rs : List Reason)
    → is_empty rs ≡ p
    → is_empty (unless b r rs) ≡ (b && p)
unfolding unless
is_empty-unless true p r rs h = h
is_empty-unless false p r rs h = refl

last-unless : (b : Bool) (r : Reason) → is_empty (unless b r []) ≡ b
unfolding unless
last-unless true r = refl
last-unless false r = refl

is_empty-why : (g : Gates) → is_empty (why g) ≡ passed g
unfolding why passed
is_empty-why g = is_empty-unless g.contiguous _ _ _ (
    is_empty-unless g.rows_match _ _ _ (
      is_empty-unless g.value_sum_match _ _ _ (
        is_empty-unless g.value_scaled_match _ _ _ (
          is_empty-unless g.sensor_match _ _ _ (
            is_empty-unless g.region_match _ _ _ (
              is_empty-unless g.name_match _ _ _ (
                is_empty-unless g.unit_match _ _ _ (
                  is_empty-unless g.tag_count_match _ _ _ (
                    is_empty-unless g.tag_match _ _ _ (
                      is_empty-unless g.batch_ts_match _ _ _ (
                        is_empty-unless g.null_quality_match _ _ _
                          (last-unless g.send_ts_after_base _))))))))))))

failure_of-nonempty :
    (p : Bool) (rs reasons : List Reason)
    → is_empty rs ≡ p
    → failure_of p rs ≡ some reasons
    → is_empty reasons ≡ false
unfolding failure_of
failure_of-nonempty true rs reasons h e = cc
failure_of-nonempty false rs reasons h e =
    let same : rs ≡ reasons = cc in sym (ap is_empty same) ∙ h

-- A refusal of the gates gives at least one reason.
pub failure-nonempty :
    (g : Gates) (reasons : List Reason) → failure g ≡ some reasons → is_empty reasons ≡ false
unfolding failure
failure-nonempty g reasons h = failure_of-nonempty (passed g) (why g) reasons (is_empty-why g) h
