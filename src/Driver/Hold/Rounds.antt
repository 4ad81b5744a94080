-- ===== src/Driver/Hold/Rounds.antt =====
-- The rounds of a loop: what holds when it is left, that it ends, and that it reaches its end.
use spate_benchmark.Prelude.{ℕ, zero, suc, ◌+◌, ◌<◌, ◌≡◌, refl, sym, subst, ◌∙◌, arith}
use spate_benchmark.Driver.Hold.{
  Turn, refuse, finish, go_on, Outcome, held, out_of_fuel, after, run,
}

module _ {R A : Type 0} where
  abbrev pub IsEnded : Outcome R A → Type 0
  IsEnded out_of_fuel = ⊥
  IsEnded _ = Unit

  held_injective : (a b : A) → ◌≡◌ {A = Outcome R A} (held a) (held b) → a ≡ b
  held_injective a b e = cc

module _ {R S A : Type 0} where
  -- What a round tells: something of what it leaves with, or of the state that it goes on with.
  abbrev pub Tells : (A → Type 0) → (S → Type 0) → Turn R S A → Type 0
  Tells Good Inv (refuse r) = Unit
  Tells Good Inv (finish a) = Good a
  Tells Good Inv (go_on s) = Inv s

  abbrev pub Stops : Turn R S A → Type 0
  Stops (go_on s) = ⊥
  Stops _ = Unit

  -- Not refused: left with something good, or gone on with.
  abbrev pub Proceeds : (A → Type 0) → (S → Type 0) → Turn R S A → Type 0
  Proceeds Good Inv (refuse r) = ⊥
  Proceeds Good Inv (finish a) = Good a
  Proceeds Good Inv (go_on s) = Inv s

module _ {R S A : Type 0} (turn : ℕ → S → Turn R S A) where
  module _ (Inv : ℕ → S → Type 0) (Good : ℕ → A → Type 0)
      (tells : (i : ℕ) (s : S) → Inv i s → Tells (Good i) (Inv (suc i)) (turn i s)) where
    after-held :
        (fuel i : ℕ) (t : Turn R S A) (a : A)
        → ((s : S) → Inv (suc i) s → run turn fuel (suc i) s ≡ held a → (j : ℕ) × Good j a)
        → Tells (Good i) (Inv (suc i)) t
        → after (run turn fuel (suc i)) t ≡ held a
        → (j : ℕ) × Good j a
    unfolding after
    after-held fuel i (refuse r) a next told h = cc
    after-held fuel i (finish b) a next told h =
        (i, subst (Good i) (held_injective {R = R} b a h) told)
    after-held fuel i (go_on s) a next told h = next s told h

    pub run-held :
        (fuel i : ℕ) (s : S) (a : A) → Inv i s → run turn fuel i s ≡ held a → (j : ℕ) × Good j a
    unfolding run
    run-held zero i s a inv h = cc
    run-held (suc fuel) i s a inv h =
        after-held fuel i (turn i s) a (λ t inv' h'. run-held fuel (suc i) t a inv' h')
          (tells i s inv) h

  -- A loop that stops in a round has ended by then.
  module _ (k : ℕ) (stops : (s : S) → Stops (turn k s)) where
    after-IsEnded : (rest : S → Outcome R A) (t : Turn R S A) → Stops t → IsEnded (after rest t)
    unfolding after
    after-IsEnded rest (refuse r) h = tt
    after-IsEnded rest (finish a) h = tt
    after-IsEnded rest (go_on s) h = absurd h

    after_go_on-IsEnded :
        (rest : S → Outcome R A) (t : Turn R S A)
        → ((s : S) → IsEnded (rest s))
        → IsEnded (after rest t)
    unfolding after
    after_go_on-IsEnded rest (refuse r) h = tt
    after_go_on-IsEnded rest (finish a) h = tt
    after_go_on-IsEnded rest (go_on s) h = h s

    pub run-ends : (d i : ℕ) (s : S) → d + i ≡ k → IsEnded (run turn (suc d) i s)
    unfolding run
    run-ends zero i s e =
        after-IsEnded (run turn zero (suc i)) (turn i s)
          (subst (λ j. Stops (turn j s)) (sym e ∙ omega arith) (stops s))
    run-ends (suc d) i s e =
        after_go_on-IsEnded (run turn (suc d) (suc i)) (turn i s)
          (λ t. run-ends d (suc i) t (omega arith))

  -- A loop that is not refused up to a round in which it is left reaches a result.
  module _ (k : ℕ) (Inv : ℕ → S → Type 0) (Good : A → Type 0)
      (proceeds : (i : ℕ) (s : S) → i < k → Inv i s → Proceeds Good (Inv (suc i)) (turn i s))
      (arrives : (s : S) → Inv k s → Proceeds Good (λ t. ⊥) (turn k s)) where
    reached_here :
        (rest : S → Outcome R A) (t : Turn R S A)
        → Proceeds Good (λ t. ⊥) t
        → (a : A) × (after rest t ≡ held a) × Good a
    unfolding after
    reached_here rest (refuse r) h = absurd h
    reached_here rest (finish a) h = (a, refl, h)
    reached_here rest (go_on s) h = absurd h

    reached_later :
        (j : ℕ) (rest : S → Outcome R A) (t : Turn R S A)
        → Proceeds Good (Inv j) t
        → ((s : S) → Inv j s → (a : A) × (rest s ≡ held a) × Good a)
        → (a : A) × (after rest t ≡ held a) × Good a
    unfolding after
    reached_later j rest (refuse r) h next = absurd h
    reached_later j rest (finish a) h next = (a, refl, h)
    reached_later j rest (go_on s) h next = next s h

    pub run-reaches :
        (d i : ℕ) (s : S) → d + i ≡ k → Inv i s → (a : A) × (run turn (suc d) i s ≡ held a) × Good a
    unfolding run
    run-reaches zero i s e inv =
        let at : i ≡ k = omega arith in
        reached_here (run turn zero (suc i)) (turn i s) (
          subst (λ j. Proceeds Good (λ t. ⊥) (turn j s)) (sym at)
            (arrives s (subst (λ j. Inv j s) at inv)))
    run-reaches (suc d) i s e inv =
        reached_later (suc i) (run turn (suc d) (suc i)) (turn i s) (proceeds i s (omega arith) inv)
          (λ t inv'. run-reaches d (suc i) t (omega arith) inv')
