-- ===== src/ServerSide/Span/Folds.antt =====
-- The ends of a window as the loops of the driver compute them.
use spate_benchmark.Prelude.{
  ℕ, ◌≤◌, ◌<◌, ◌^◌, ◌-◌, min, max, false, List, [], ◌∷◌, ◌++◌, map, filter, leb, ◌≡◌, refl, ap, sym,
  ◌∙◌, arith, All, All-map, subst,
}
use spate_benchmark.Sampler.{Sample, Samples, readable, last_of}
use spate_benchmark.Sampler.Peak.Levels.{InOrder}
use spate_benchmark.ServerSide.{ok}
use spate_benchmark.ServerSide.Span.{new, times, min_of, max_of, span, spanning}

abbrev pub times_of : List Sample → List ℕ
times_of rows = map (λ (s : Sample). s.t_ms) rows

pub times-cons :
    {F : Type 0} (s : Samples F) (rest : List (Samples F))
    → times (s ∷ rest) ≡ times_of (filter readable s.rows) ++ times rest
unfolding times
times-cons s rest = refl

pub times-nil : (F : Type 0) → times {F = F} [] ≡ []
unfolding times
times-nil F = refl

min_of-append : (t : ℕ) (us vs : List ℕ) → min_of t (us ++ vs) ≡ min_of (min_of t us) vs
unfolding min_of
min_of-append t [] vs = refl
min_of-append t (u ∷ us) vs = min_of-append (min t u) us vs

max_of-append : (t : ℕ) (us vs : List ℕ) → max_of t (us ++ vs) ≡ max_of (max_of t us) vs
unfolding max_of
max_of-append t [] vs = refl
max_of-append t (u ∷ us) vs = max_of-append (max t u) us vs

-- Rows that stand at `t` or later do not lower the least time.
min_of-later :
    (t : ℕ) (rows : List Sample) → All (λ s. t ≤ s.t_ms) rows → min_of t (times_of rows) ≡ t
unfolding min_of
min_of-later t [] _ = refl
min_of-later t (s ∷ ss) (h, hs) =
    let e : min t s.t_ms ≡ t = omega arith in
    ap (λ k. min_of k (times_of ss)) e ∙ min_of-later t ss hs

last_of-All :
    (a : ℕ) (r : Sample) (rs : List Sample)
    → All (λ s. a ≤ s.t_ms) (r ∷ rs)
    → a ≤ (last_of r rs).t_ms
unfolding last_of
last_of-All a r [] (h, hs) = h
last_of-All a r (q ∷ qs) (h, hs) = last_of-All a q qs hs

-- Of rows in time order the first has the least time and the last the greatest.
pub min_of-rows :
    (t : ℕ) (s : Sample) (ss : List Sample) (us : List ℕ)
    → InOrder (s ∷ ss)
    → min_of t (times_of (s ∷ ss) ++ us) ≡ min_of (min t s.t_ms) us
unfolding min_of
min_of-rows t s ss us (h, hs) =
    min_of-append (min t s.t_ms) (times_of ss) us
    ∙ ap (λ k. min_of k us)
        (min_of-later (min t s.t_ms) ss (All-map (λ r l. omega (arith, l)) ss h))

pub max_of-rows :
    (t : ℕ) (s : Sample) (ss : List Sample) (us : List ℕ)
    → InOrder (s ∷ ss)
    → max_of t (times_of (s ∷ ss) ++ us) ≡ max_of (max t ((last_of s ss).t_ms)) us
unfolding max_of last_of
max_of-rows t s [] us h = refl
max_of-rows t s (r ∷ rs) us (h, hs) =
    let later = last_of-All s.t_ms r rs h in
    max_of-rows (max t s.t_ms) r rs us hs ∙ ap (λ k. max_of k us) (omega (arith, later))

new-ok : (a b : ℕ) → a < b → new a b ≡ ok (record { from_ms = a; to_ms = b })
unfolding new
new-ok a b h = let n : leb b a ≡ false = ground arith in rw n refl

-- A window from the loops' ends.
pub span-ends :
    (ts : List ℕ)
    → All (λ t. t < 2 ^ 64) ts
    → min_of (2 ^ 64 - 1) ts < max_of 0 ts
    → span ts ≡ ok (record { from_ms = min_of (2 ^ 64 - 1) ts; to_ms = max_of 0 ts })
unfolding span min_of max_of
span-ends [] _ h = absurd (omega arith)
span-ends (t ∷ ts) (b, bs) h =
    let low : min (2 ^ 64 - 1) t ≡ t = omega arith in
    let high : max 0 t ≡ t = omega arith in
    new-ok (min_of t ts) (max_of t ts) (
      subst (λ k. min_of k ts < max_of t ts) low
        (subst (λ k. min_of (min (2 ^ 64 - 1) t) ts < max_of k ts) high h))
    ∙ ap (λ k. ok (record { from_ms = min_of k ts; to_ms = max_of t ts })) (sym low)
    ∙ ap (λ k. ok (record { from_ms = min_of (min (2 ^ 64 - 1) t) ts; to_ms = max_of k ts }))
        (sym high)

pub spanning-span : {F : Type 0} (series : List (Samples F)) → spanning series ≡ span (times series)
unfolding spanning
spanning-span series = refl

pub min_of-nil : (t : ℕ) → min_of t [] ≡ t
unfolding min_of
min_of-nil t = refl

pub max_of-nil : (t : ℕ) → max_of t [] ≡ t
unfolding max_of
max_of-nil t = refl
