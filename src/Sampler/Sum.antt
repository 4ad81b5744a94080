-- ===== src/Sampler/Sum.antt =====
-- What a sum over the containers of an arm rests on: `SutCost::sum` of harness/src/sampler.rs.
mod Examples
use spate_benchmark.Prelude.{
  ℕ, ◌≤◌, min, subst, if◌then◌else◌, Bool, true, false, Option, none, some, List, [], ◌∷◌, map, ◌≡◌,
  refl, ap, arith, All, All-map, Bool-cases, Option-cases, inl, inr,
}
use spate_benchmark.Ceiling.Float.{Float}
use spate_benchmark.Sampler.{SutCost, cons_present, present, min_samples, sum_present, sum}

module _ (fl : Float) where
  open fl use {F, le, decimal}

  cons_present-map :
      (c : SutCost F) (ps : List (Option (SutCost F))) (o : Option (List (SutCost F)))
      → ((ds : List (SutCost F)) → o ≡ some ds → ps ≡ map some ds)
      → (cs : List (SutCost F)) → cons_present fl c o ≡ some cs
      → some c ∷ ps ≡ map some cs
  unfolding cons_present
  cons_present-map c ps none ih cs h = cc
  cons_present-map c ps (some ds) ih [] h = cc
  cons_present-map c ps (some ds) ih (d ∷ cs) h = cc (ih ds refl)

  present-map :
      (parts : List (Option (SutCost F))) (cs : List (SutCost F))
      → present fl parts ≡ some cs
      → parts ≡ map some cs
  unfolding present
  present-map [] [] h = refl
  present-map [] (c ∷ cs) h = cc
  present-map (none ∷ ps) cs h = cc
  present-map (some c ∷ ps) cs h = cons_present-map c ps (present fl ps) (present-map ps) cs h

  min_samples-le :
      (c : SutCost F) (cs : List (SutCost F)) → All (λ p. min_samples fl c cs ≤ p.samples) (c ∷ cs)
  unfolding min_samples
  min_samples-le c [] = (omega arith, tt)
  min_samples-le c (d ∷ ds) =
      (omega arith, All-map (λ p h. omega (arith, h)) (d ∷ ds) (min_samples-le d ds))

  guarded-eq :
      (b : Bool) (c total : SutCost F) → (if b then none else some c) ≡ some total → c ≡ total
  guarded-eq true c total h = cc
  guarded-eq false c total h = cc

  sum_present-le :
      (c : SutCost F) (cs : List (SutCost F)) (total : SutCost F)
      → sum_present fl (some (c ∷ cs)) ≡ some total
      → All (λ p. total.samples ≤ p.samples) (c ∷ cs)
  unfolding sum_present
  sum_present-le c cs total h =
      let e = ap (λ (p : SutCost F). p.samples) (guarded-eq _ _ total h) in
      subst (λ n. All (λ p. n ≤ p.samples) (c ∷ cs)) e (min_samples-le c cs)

  sum_present-All :
      (parts : List (Option (SutCost F))) (total : SutCost F) (o : Option (List (SutCost F)))
      → present fl parts ≡ o
      → sum_present fl o ≡ some total
      → (c : SutCost F) × (cs : List (SutCost F)) × (parts ≡ map some (c ∷ cs))
        × All (λ p. total.samples ≤ p.samples) (c ∷ cs)
  unfolding sum_present
  sum_present-All parts total none e h = cc
  sum_present-All parts total (some []) e h = cc
  sum_present-All parts total (some (c ∷ cs)) e h =
      (c, cs, present-map parts (c ∷ cs) e, sum_present-le c cs total h)

  -- An arm has a cost only where it has a container and every container has one, and the cost counts
  -- no more samples than any container's does.
  pub sum-All :
      (parts : List (Option (SutCost F))) (total : SutCost F)
      → sum fl parts ≡ some total
      → (c : SutCost F) × (cs : List (SutCost F)) × (parts ≡ map some (c ∷ cs))
        × All (λ p. total.samples ≤ p.samples) (c ∷ cs)
  unfolding sum
  sum-All parts total h = sum_present-All parts total (present fl parts) refl h
