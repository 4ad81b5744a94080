-- ===== src/ServerSide/Cost/Accounts.antt =====
-- What a summarised cost accounts for.
use spate_benchmark.Prelude.{
  ℕ, ◌≢◌, subst, suc, ◌+◌, ◌<◌, ◌≤◌, Bool, true, false, List, [], ◌∷◌, Text, if◌then◌else◌, filter,
  length, ltb, ◌==◌, is_empty, ◌≡◌, refl, arith,
}
use spate_benchmark.Ceiling.Float.{Float}
use spate_benchmark.ServerSide.{
  Window, ServerSideError, no_attributed_queries, async_inserts_not_attributable, no_cpu_counters,
  Result, ok, err, RowType, start, finish, exception_before_start, exception_while_processing,
  is_exception, is_finish, is_start, AttributedQuery,
}
use spate_benchmark.ServerSide.Cost.{
  ServerSideCost, is_async, lacks_cpu, count, cost_of, summarise_finished, summarise,
}

kind-once :
    (t : RowType) (r : AttributedQuery) (finished : List AttributedQuery) (started failed n : ℕ)
    → length finished + started + failed ≡ n
    → length (if is_finish t then r ∷ finished else finished)
        + (if is_start t then suc started else started)
        + (if is_exception t then suc failed else failed)
      ≡ suc n
kind-once start r finished started failed n h = omega arith
kind-once finish r finished started failed n h = omega arith
kind-once exception_before_start r finished started failed n h = omega arith
kind-once exception_while_processing r finished started failed n h = omega arith

count-kinds :
    (rows : List AttributedQuery)
    → length (filter (λ r. is_finish r.row_type) rows)
        + count (λ r. is_start r.row_type) rows
        + count (λ r. is_exception r.row_type) rows
      ≡ length rows
unfolding count
count-kinds [] = refl
count-kinds (r ∷ rows) = kind-once r.row_type r _ _ _ _ (count-kinds rows)

count-le : (p : AttributedQuery → Bool) (rows : List AttributedQuery) → count p rows ≤ length rows
unfolding count
count-le p [] = omega arith
count-le p (r ∷ rows) = ground (arith, count-le p rows)

module _ (fl : Float) where
  open fl use {F}

  abbrev pub is_ok : Result (ServerSideCost F) → Bool
  is_ok (ok c) = true
  is_ok (err e) = false

  last-ok :
      (a b c : Bool) (e f g : ServerSideError) (x y : ServerSideCost F)
      → (if a then err e else if b then err f else if c then err g else ok x) ≡ ok y
      → (c ≡ false) × (x ≡ y)
  last-ok true b c e f g x y h = cc
  last-ok false true c e f g x y h = cc
  last-ok false false true e f g x y h = cc
  last-ok false false false e f g x y h = (refl, cc)

  accounts_of_finished :
      (rows finished : List AttributedQuery) (tables : List Text) (window : Window)
      (c : ServerSideCost F)
      → summarise_finished fl rows finished tables window ≡ ok c
      → (count lacks_cpu finished ≢ length finished) × (cost_of fl rows finished tables window ≡ c)
  unfolding summarise_finished
  accounts_of_finished rows finished tables window c h =
      let (n, e) =
        last-ok (is_empty finished) (ltb 0 (count is_async finished))
          (count lacks_cpu finished == length finished) (no_attributed_queries tables window)
          (async_inserts_not_attributable (count is_async finished)
            (count (λ r. r.written_rows == 0) finished) (length finished))
          (no_cpu_counters (length finished)) (cost_of fl rows finished tables window) c h in
      (λ (k : count lacks_cpu finished ≡ length finished). ground (arith, n), e)

  -- A cost accounts for every row of the answer as finished, started or failed, once; and not every
  -- insert it counts lacks the CPU counters.
  pub summarise-accounts :
      (rows : List AttributedQuery) (tables : List Text) (window : Window) (c : ServerSideCost F)
      → summarise fl rows tables window ≡ ok c
      → (c.queries + c.queries_started + c.failed_queries ≡ length rows)
        × (c.queries_without_cpu < c.queries)
  unfolding summarise cost_of
  summarise-accounts rows tables window c h =
      let (n, e) = accounts_of_finished rows _ tables window c h in
      subst
        (λ (d : ServerSideCost F).
          (d.queries + d.queries_started + d.failed_queries ≡ length rows)
          × (d.queries_without_cpu < d.queries))
        e
        (
          count-kinds rows,
          omega (arith, n, count-le lacks_cpu (filter (λ r. is_finish r.row_type) rows)),
        )
