-- ===== src/Selector/Split.antt =====
-- `str::split_once` and `str::split` at one character, as harness/src/select.rs uses them.
use spate_benchmark.Prelude.{
  ℕ, true, not, all, Option, none, some, List, [], ◌∷◌, ◌++◌, Text, ◌≡◌, ◌≢◌, refl, arith, ◌==◌,
  if◌then◌else◌, All, ap, inl, inr, Bool-cases, ==_iff,
}

-- What stands before the first `sep`, and what stands behind it.
abbrev cons_first : ℕ → Option (Text × Text) → Option (Text × Text)
cons_first c none = none
cons_first c (some (a, b)) = some (c ∷ a, b)

unfoldable pub split_once : ℕ → Text → Option (Text × Text)
split_once sep [] = none
split_once sep (c ∷ s) =
    let rest = split_once sep s in if c == sep then some ([], s) else cons_first c rest

abbrev onto_first : ℕ → List Text → List Text
onto_first c [] = (c ∷ []) ∷ []
onto_first c (p ∷ ps) = (c ∷ p) ∷ ps

-- The parts between the separators; at least one.
unfoldable pub split : ℕ → Text → List Text
split sep [] = [] ∷ []
split sep (c ∷ s) = let rest = split sep s in if c == sep then [] ∷ rest else onto_first c rest

abbrev pub Lacks : ℕ → Text → Type 0
Lacks b = All (λ c. c ≢ b)

module _ (sep : ℕ) where
  pub Lacks-all : (s : Text) → all (λ c. not (c == sep)) s ≡ true → Lacks sep s
  Lacks-all [] h = tt
  Lacks-all (c ∷ s) h = ground (arith, Lacks-all s)

  pub split_once-Lacks : (s : Text) → split_once sep s ≡ none → Lacks sep s
  unfolding split_once
  split_once-Lacks [] h = tt
  split_once-Lacks (c ∷ s) h = ground (arith, split_once-Lacks s)

  pub split_once_of_Lacks : (s : Text) → Lacks sep s → split_once sep s ≡ none
  unfolding split_once
  split_once_of_Lacks [] h = refl
  split_once_of_Lacks (c ∷ s) h = ground (arith, split_once_of_Lacks s)

  abbrev pub Before : Text → Option (Text × Text) → Type 0
  Before s none = Unit
  Before s (some (a, b)) = Lacks sep a × (s ≡ a ++ sep ∷ b)

  cons_first-Before :
      (c : ℕ) (s : Text) (o : Option (Text × Text))
      → c ≢ sep
      → Before s o
      → Before (c ∷ s) (cons_first c o)
  cons_first-Before c s none h b = tt
  cons_first-Before c s (some (a, t)) h (lacks, e) = ((h, lacks), ap (λ r. c ∷ r) e)

  -- What stands before the first separator holds none.
  pub split_once-Before : (s : Text) → Before s (split_once sep s)
  unfolding split_once
  split_once-Before [] = tt
  split_once-Before (c ∷ s) = elim (Bool-cases (c == sep)) [
    | inl e ↦ rw e (tt, ap (λ (d : ℕ). d ∷ s) ((==_iff c sep).0 e))
    | inr n ↦ rw n (cons_first-Before c s (split_once sep s) (ground arith) (split_once-Before s))
  ]

  pub split_once-append : (a b : Text) → Lacks sep a → split_once sep (a ++ sep ∷ b) ≡ some (a, b)
  unfolding split_once
  split_once-append [] b h = ground arith
  split_once-append (c ∷ a) b h = ground (arith, split_once-append a b)

  pub split_of_Lacks : (s : Text) → Lacks sep s → split sep s ≡ s ∷ []
  unfolding split
  split_of_Lacks [] h = refl
  split_of_Lacks (c ∷ s) h = ground (arith, split_of_Lacks s)

  pub split-append : (a b : Text) → Lacks sep a → split sep (a ++ sep ∷ b) ≡ a ∷ split sep b
  unfolding split
  split-append [] b h = ground arith
  split-append (c ∷ a) b h = ground (arith, split-append a b)

  onto_first-Lacks :
      (c : ℕ) (ps : List Text) → c ≢ sep → All (Lacks sep) ps → All (Lacks sep) (onto_first c ps)
  onto_first-Lacks c [] h _ = ((h, tt), tt)
  onto_first-Lacks c (p ∷ ps) h (hp, hps) = ((h, hp), hps)

  -- No part of a split holds the separator.
  pub split-Lacks : (s : Text) → All (Lacks sep) (split sep s)
  unfolding split
  split-Lacks [] = (tt, tt)
  split-Lacks (c ∷ s) = elim (Bool-cases (c == sep)) [
    | inl e ↦ rw e (tt, split-Lacks s)
    | inr n ↦ rw n (onto_first-Lacks c (split sep s) (ground arith) (split-Lacks s))
  ]

  onto_first-All :
      (P : ℕ → Type 0) (c : ℕ) (ps : List Text)
      → P c
      → All (All P) ps
      → All (All P) (onto_first c ps)
  onto_first-All P c [] h _ = ((h, tt), tt)
  onto_first-All P c (p ∷ ps) h (hp, hps) = ((h, hp), hps)

  -- What holds of every character holds of every character of every part.
  pub split-All : (P : ℕ → Type 0) (s : Text) → All P s → All (All P) (split sep s)
  unfolding split
  split-All P [] h = (tt, tt)
  split-All P (c ∷ s) (hc, hs) = elim (Bool-cases (c == sep)) [
    | inl e ↦ rw e (tt, split-All P s hs)
    | inr n ↦ rw n (onto_first-All P c (split sep s) hc (split-All P s hs))
  ]
