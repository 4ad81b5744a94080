-- ===== src/Driver/Windows/Agrees.antt =====
-- The interval of the driver is the window of the server's figures.
use spate_benchmark.Prelude.{
  ℕ, ◌<◌, ◌^◌, ◌-◌, min, max, Bool, true, false, Option, none, some, List, [], ◌∷◌, ◌++◌, Text,
  if◌then◌else◌, filter, ltb, ◌≡◌, refl, ap, sym, ◌∙◌, subst, arith, All, All-append,
}
use spate_benchmark.Sampler.{Sample, Samples, readable, last_of}
use spate_benchmark.Sampler.Peak.Levels.{InOrder}
use spate_benchmark.ServerSide.{ok}
use spate_benchmark.ServerSide.Span.{times, min_of, max_of, span, spanning}
use spate_benchmark.ServerSide.Span.Folds.{
  times_of, times-cons, times-nil, min_of-rows, max_of-rows, span-ends, spanning-span, min_of-nil,
  max_of-nil,
}
use spate_benchmark.Driver.Windows.{ends_of, readable_rows, forwards, sampler_window_ms}

abbrev pub series_of : {F : Type 0} → List (Text × Samples F) → List (Samples F)
series_of [] = []
series_of ((name, s) ∷ rest) = s ∷ series_of rest

times_of-All :
    (rows : List Sample) → All (λ s. s.t_ms < 2 ^ 64) rows → All (λ t. t < 2 ^ 64) (times_of rows)
times_of-All [] _ = tt
times_of-All (s ∷ ss) (h, hs) = (h, times_of-All ss hs)

-- Readable rows in time order, their times of 64 bits.
abbrev pub IsTimed : List Sample → Type 0
IsTimed rows = InOrder rows × All (λ s. s.t_ms < 2 ^ 64) rows

-- The times of the rows of every container.
abbrev flat : List (List Sample) → List ℕ
flat [] = []
flat (rows ∷ rest) = times_of rows ++ flat rest

times-flat :
    {F : Type 0} (costs : List (Text × Samples F))
    → times (series_of costs) ≡ flat (readable_rows costs)
unfolding readable_rows
times-flat {F = F} [] = times-nil F
times-flat ((name, s) ∷ rest) =
    times-cons s (series_of rest)
    ∙ ap (λ ts. times_of (filter readable s.rows) ++ ts) (times-flat rest)

ends_of-flat :
    (from to a b : ℕ) (rss : List (List Sample))
    → All IsTimed rss
    → ends_of from to rss ≡ some (a, b)
    → (a ≡ min_of from (flat rss)) × (b ≡ max_of to (flat rss))
unfolding ends_of
ends_of-flat from to a b [] _ h = (cc (min_of-nil from, h), cc (max_of-nil to, h))
ends_of-flat from to a b ([] ∷ rest) _ h = cc
ends_of-flat from to a b ((first ∷ ss) ∷ rest) (o, os) h =
    let (low, high) =
      ends_of-flat (min from first.t_ms) (max to ((last_of first ss).t_ms)) a b rest os h in
    (
      low ∙ sym (min_of-rows from first ss (flat rest) (o.0)),
      high ∙ sym (max_of-rows to first ss (flat rest) (o.0)),
    )

flat-All : (rss : List (List Sample)) → All IsTimed rss → All (λ t. t < 2 ^ 64) (flat rss)
flat-All [] _ = tt
flat-All (rows ∷ rest) (o, os) =
    All-append (λ t. t < 2 ^ 64) (times_of rows) (flat rest) (times_of-All rows (o.1))
      (flat-All rest os)

guard-some : (c : Bool) (x y : ℕ × ℕ) → (if c then some x else none) ≡ some y → (c ≡ true) × (x ≡ y)
guard-some true x y h = (refl, cc)
guard-some false x y h = cc

forwards-some :
    (o : Option (ℕ × ℕ)) (a b : ℕ) → forwards o ≡ some (a, b) → (o ≡ some (a, b)) × (a < b)
unfolding forwards
forwards-some none a b h = cc
forwards-some (some (from, to)) a b h =
    let (l, e) = guard-some (ltb from to) (from, to) (a, b) h in
    (ap some e, subst (λ (p : ℕ × ℕ). p.0 < p.1) e (ground (arith, l)))

-- Where the readable rows of every container stand in time order, the interval that the driver takes is
-- the window that the server's figures are attributed over.
pub sampler_window_ms-spanning :
    {F : Type 0} (costs : List (Text × Samples F)) (a b : ℕ)
    → All IsTimed (readable_rows costs)
    → sampler_window_ms costs ≡ some (a, b)
    → spanning (series_of costs) ≡ ok (record { from_ms = a; to_ms = b })
unfolding sampler_window_ms
sampler_window_ms-spanning costs a b timed h =
    let (e, l) = forwards-some (ends_of (2 ^ 64 - 1) 0 (readable_rows costs)) a b h in
    let (low, high) = ends_of-flat (2 ^ 64 - 1) 0 a b (readable_rows costs) timed e in
    let ts = flat (readable_rows costs) in
    spanning-span (series_of costs)
    ∙ ap span (times-flat costs)
    ∙ span-ends ts (flat-All (readable_rows costs) timed) (omega (arith, l, low, high))
    ∙ ap (λ k. ok (record { from_ms = k; to_ms = max_of 0 ts })) (sym low)
    ∙ ap (λ k. ok (record { from_ms = a; to_ms = k })) (sym high)
