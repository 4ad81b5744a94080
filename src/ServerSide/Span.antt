-- ===== src/ServerSide/Span.antt =====
-- `Window` of harness/src/serverside.rs: the interval that the figures are attributed over.
pub mod Folds
mod Examples
use spate_benchmark.Prelude.{
  ℕ, ap, sym, subst, ◌-◌, ◌≤◌, ◌<◌, min, max, Bool, true, false, List, [], ◌∷◌, ◌++◌, map,
  if◌then◌else◌, filter, leb, ◌≡◌, refl, arith, All, All-map, Bool-cases, inl, inr,
}
use spate_benchmark.Ceiling.Float.{Float}
use spate_benchmark.Sampler.{Sample, Samples, readable}
use spate_benchmark.ServerSide.{Window, ServerSideError, empty_window, Result, ok, err}

-- `Window::new`
pub new : ℕ → ℕ → Result Window
new from_ms to_ms =
    if leb to_ms from_ms
    then err (empty_window from_ms to_ms)
    else ok (record { from_ms = from_ms; to_ms = to_ms })

-- The times of the readable rows of every series.
pub times : {F : Type 0} → List (Samples F) → List ℕ
times [] = []
times (s ∷ rest) = map (λ (r : Sample). r.t_ms) (filter readable s.rows) ++ times rest

pub min_of : ℕ → List ℕ → ℕ
min_of t [] = t
min_of t (u ∷ us) = min_of (min t u) us

pub max_of : ℕ → List ℕ → ℕ
max_of t [] = t
max_of t (u ∷ us) = max_of (max t u) us

pub span : List ℕ → Result Window
unfolding new
span [] = new 0 0
span (t ∷ ts) = new (min_of t ts) (max_of t ts)

pub spanning : {F : Type 0} → List (Samples F) → Result Window
unfolding span
spanning series = span (times series)

module _ (fl : Float) where
  open fl use {F, of_u64, div, decimal}

  pub seconds : Window → F
  seconds w = div (of_u64 (w.to_ms - w.from_ms)) (decimal 1000 1)

min_of-le : (t : ℕ) (ts : List ℕ) → (min_of t ts ≤ t) × All (λ u. min_of t ts ≤ u) ts
unfolding min_of
min_of-le t [] = (omega arith, tt)
min_of-le t (u ∷ us) = let (h, hs) = min_of-le (min t u) us in (omega arith, (omega arith, hs))

max_of-le : (t : ℕ) (ts : List ℕ) → (t ≤ max_of t ts) × All (λ u. u ≤ max_of t ts) ts
unfolding max_of
max_of-le t [] = (omega arith, tt)
max_of-le t (u ∷ us) = let (h, hs) = max_of-le (max t u) us in (omega arith, (omega arith, hs))

guard-ok :
    (b : Bool) (e : ServerSideError) (w v : Window)
    → (if b then err e else ok w) ≡ ok v
    → (b ≡ false) × (w ≡ v)
guard-ok true e w v h = cc
guard-ok false e w v h = (refl, cc)

new-bounds : (a b : ℕ) (w : Window) → new a b ≡ ok w → (w.from_ms ≡ a) × (w.to_ms ≡ b) × (a < b)
unfolding new
new-bounds a b w h =
    let (n, e) = guard-ok (leb b a) (empty_window a b) (record { from_ms = a; to_ms = b }) w h in
    (
      ap (λ (v : Window). v.from_ms) (sym e),
      ap (λ (v : Window). v.to_ms) (sym e),
      ground (arith, n),
    )

abbrev keep_if : Bool → Sample → List Sample → List Sample
keep_if b r rows = if b then r ∷ rows else rows

readable-All :
    (P : ℕ → Type 0) (rows : List Sample) (us : List ℕ)
    → All P (map (λ (r : Sample). r.t_ms) (filter readable rows) ++ us)
    → All (λ (r : Sample). readable r ≡ true → P r.t_ms) rows × All P us
readable-All P [] us h = (tt, h)
readable-All P (r ∷ rows) us h = elim (Bool-cases (readable r)) [
  | inl e ↦
      let k =
        subst (λ b. All P (map (λ (q : Sample). q.t_ms) (keep_if b r (filter readable rows)) ++ us))
          e h in
      let (here, there) = readable-All P rows us (k.1) in ((λ _. k.0, here), there)
  | inr n ↦
      let k =
        subst (λ b. All P (map (λ (q : Sample). q.t_ms) (keep_if b r (filter readable rows)) ++ us))
          n h in
      let (here, there) = readable-All P rows us k in ((λ e. cc, here), there)
]

-- What holds of every time holds of every readable row's.
times-All :
    {F : Type 0} (P : ℕ → Type 0) (series : List (Samples F))
    → All P (times series)
    → All (λ s. All (λ (r : Sample). readable r ≡ true → P r.t_ms) s.rows) series
unfolding times
times-All P [] h = tt
times-All P (s ∷ rest) h =
    let (here, there) = readable-All P s.rows (times rest) h in (here, times-All P rest there)

All-both : (P Q : ℕ → Type 0) (ts : List ℕ) → All P ts → All Q ts → All (λ t. P t × Q t) ts
All-both P Q [] _ _ = tt
All-both P Q (t ∷ ts) (p, ps) (q, qs) = ((p, q), All-both P Q ts ps qs)

span-bounds :
    (ts : List ℕ) (w : Window)
    → span ts ≡ ok w
    → (w.from_ms < w.to_ms) × All (λ t. (w.from_ms ≤ t) × (t ≤ w.to_ms)) ts
unfolding span new
span-bounds [] w h = cc
span-bounds (t ∷ ts) w h =
    let (f, l, o) = new-bounds (min_of t ts) (max_of t ts) w h in
    let (a, lows) = min_of-le t ts in
    let (b, highs) = max_of-le t ts in
    (
      omega (arith, f, l, o),
      (
        (omega (arith, f, a), omega (arith, l, b)),
        All-both (λ u. w.from_ms ≤ u) (λ u. u ≤ w.to_ms) ts
            (All-map (λ u m. omega (arith, f, m)) ts lows)
            (All-map (λ u m. omega (arith, l, m)) ts highs),
      ),
    )

-- A window of an arm runs forwards, and no readable row of any of its containers stands outside it,
-- the end included.
pub spanning-bounds :
    {F : Type 0} (series : List (Samples F)) (w : Window)
    → spanning series ≡ ok w
    → (w.from_ms < w.to_ms)
      × All
          (λ s.
            All
              (λ (r : Sample). readable r ≡ true → (w.from_ms ≤ r.t_ms) × (r.t_ms ≤ w.to_ms))
              s.rows)
          series
unfolding spanning
spanning-bounds series w h =
    let (f, hs) = span-bounds (times series) w h in
    (f, times-All (λ t. (w.from_ms ≤ t) × (t ≤ w.to_ms)) series hs)
