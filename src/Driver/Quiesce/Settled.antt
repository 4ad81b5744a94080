-- ===== src/Driver/Quiesce/Settled.antt =====
-- The results of `quiesce` of harness/src/driver.rs.
use spate_benchmark.Prelude.{
  ℕ, zero, suc, ◌+◌, ◌≤◌, Bool, true, false, Option, none, some, ◌≡◌, ◌≢◌, ◌⊎◌, refl, arith, ◌==◌,
  leb, ==_iff, Bool-cases, inl, inr, subst, sym, ap, ◌∙◌,
}
use spate_benchmark.Driver.Quiesce.{
  Quiesced, Outcome, ok, out_of_fuel, State, start, Step, refused, settled_at, polled, on_failure,
  on_count, on_probe, after_poll, finish, loop, quiesce,
}

-- The fields of a result, or `d` where there is none.
abbrev field_or : {A : Type 0} → (Quiesced → A) → A → Outcome → A
field_or f d (ok q) = f q
field_or f d _ = d

finish-ok :
    (p : ℕ) (b : Bool) (q : Quiesced) → finish (some p) b ≡ ok q → (p ≡ q.rows) × (b ≡ q.settled)
unfolding finish
finish-ok p b q h = (ap (field_or (λ r. r.rows) 0) h, ap (field_or (λ r. r.settled) false) h)

finish-settled : (o : Option ℕ) (q : Quiesced) → finish o false ≡ ok q → q.settled ≡ true → ⊥
unfolding finish
finish-settled none q h settled = cc
finish-settled (some p) q h settled =
    let (_, e) = finish-ok p false q h in let bad : false ≡ true = e ∙ settled in cc

module _ (rows_now : ℕ → Option ℕ) where
  -- The last `s` polls before poll `i` all read `p`.
  abbrev pub Last : ℕ → ℕ → ℕ → Type 0
  Last zero i p = Unit
  Last (suc s) zero p = ⊥
  Last (suc s) (suc i) p = (rows_now i ≡ some p) × Last s i p

  -- `stable` polls have read the row count at hand.
  abbrev Counted : ℕ → Option ℕ → ℕ → Type 0
  Counted s none i = s ≡ 0
  Counted s (some p) i = Last s i p

  -- What a poll's step says of the polls so far.
  abbrev Told : ℕ → Step → Type 0
  Told i (refused f) = rows_now i ≡ none
  Told i (settled_at none) = ⊥
  Told i (settled_at (some p)) = Last 3 (suc i) p
  Told i (polled st) = Counted st.stable st.prev (suc i)

  Counted-fresh : (o : Option ℕ) (i : ℕ) → Counted 0 o i
  Counted-fresh none i = refl
  Counted-fresh (some p) i = tt

  Last-shorter : (s t i p : ℕ) → s ≤ t → Last t i p → Last s i p
  Last-shorter zero t i p h l = tt
  Last-shorter (suc s) zero i p h l = absurd (omega arith)
  Last-shorter (suc s) (suc t) zero p h l = elim l [ ]
  Last-shorter (suc s) (suc t) (suc i) p h (here, l) = (here, Last-shorter s t i p (omega arith) l)

  on_failure-Told :
      (f : ℕ) (prev : Option ℕ) (i : ℕ) → rows_now i ≡ none → Told i (on_failure f prev)
  unfolding on_failure
  on_failure-Told f prev i e = elim (Bool-cases (leb 5 (f + 1))) [
    | inl enough ↦ rw enough e
    | inr few ↦ rw few (Counted-fresh prev (suc i))
  ]

  on_count-Told :
      (s : ℕ) (prev : Option ℕ) (i n : ℕ)
      → rows_now i ≡ some n
      → Counted s prev i
      → Told i (on_count s prev n)
  unfolding on_count
  on_count-Told s none i n e c = tt
  on_count-Told s (some p) i n e l = elim (Bool-cases (p == n)) [
    | inr differ ↦ rw differ tt
    | inl equal ↦
        let same : p ≡ n = (==_iff p n).0 equal in
        rw equal (elim (Bool-cases (leb 3 (suc s))) [
          | inl enough ↦ rw enough (e ∙ ap some (sym same), Last-shorter 2 s i p (ground arith) l)
          | inr few ↦ rw few (e, subst (Last s i) same l)
        ])
  ]

  on_probe-Told :
      (st : State) (i : ℕ) (o : Option ℕ)
      → rows_now i ≡ o
      → Counted st.stable st.prev i
      → Told i (on_probe st o)
  unfolding on_probe
  on_probe-Told st i none e c = on_failure-Told st.failures st.prev i e
  on_probe-Told st i (some n) e c = on_count-Told st.stable st.prev i n e c

  module _ (is_late : ℕ → Bool) where
    -- A result that counts as settled was read by three polls in a row.
    abbrev SettledAt : Quiesced → Type 0
    SettledAt q = (i : ℕ) × Last 3 i q.rows

    after_poll-settled :
        (late : Bool) (rest : State → Outcome) (i : ℕ) (step : Step) (q : Quiesced)
        → ((st : State) → Counted st.stable st.prev (suc i) → rest st ≡ ok q → SettledAt q)
        → Told i step
        → after_poll late rest step ≡ ok q
        → q.settled ≡ true
        → SettledAt q
    unfolding after_poll
    after_poll-settled late rest i (refused f) q next told h settled = cc
    after_poll-settled late rest i (settled_at none) q next told h settled = elim told [ ]
    after_poll-settled late rest i (settled_at (some p)) q next told h settled =
        let (e, _) = finish-ok p true q h in (suc i, subst (Last 3 (suc i)) e told)
    after_poll-settled true rest i (polled st) q next told h settled =
        absurd (finish-settled st.prev q h settled)
    after_poll-settled false rest i (polled st) q next told h settled = next st told h

    loop-settled :
        (fuel i : ℕ) (st : State) (q : Quiesced)
        → Counted st.stable st.prev i
        → loop rows_now is_late fuel i st ≡ ok q
        → q.settled ≡ true
        → SettledAt q
    unfolding loop
    loop-settled zero i st q c h settled = cc
    loop-settled (suc fuel) i st q c h settled =
        after_poll-settled (is_late i) (loop rows_now is_late fuel (suc i)) i _ q
          (λ next counted again. loop-settled fuel (suc i) next q counted again settled)
          (on_probe-Told st i (rows_now i) refl c) h settled

    -- A pipeline counts as settled only at a row count that three polls in a row have read.
    pub quiesce-settled :
        (fuel : ℕ) (q : Quiesced)
        → quiesce rows_now is_late fuel ≡ ok q
        → q.settled ≡ true
        → (i : ℕ) × Last 3 i q.rows
    unfolding quiesce
    quiesce-settled fuel q h settled = loop-settled fuel 0 start q refl h settled

    finish-ends : (o : Option ℕ) (b : Bool) → finish o b ≢ out_of_fuel
    unfolding finish
    finish-ends none b h = cc
    finish-ends (some p) b h = cc

    after_poll-ends :
        (late : Bool) (rest : State → Outcome) (step : Step)
        → (late ≡ true) ⊎ ((st : State) → rest st ≢ out_of_fuel)
        → after_poll late rest step ≢ out_of_fuel
    unfolding after_poll
    after_poll-ends late rest (refused f) next h = cc
    after_poll-ends late rest (settled_at o) next h = finish-ends o true h
    after_poll-ends true rest (polled st) next h = finish-ends st.prev false h
    after_poll-ends false rest (polled st) (inl e) h = cc
    after_poll-ends false rest (polled st) (inr next) h = next st h

    loop-ends :
        (k i : ℕ) (st : State)
        → is_late (k + i) ≡ true
        → loop rows_now is_late (suc k) i st ≢ out_of_fuel
    unfolding loop
    loop-ends zero i st late =
        after_poll-ends (is_late i) _ _ (inl (subst (λ n. is_late n ≡ true) (omega arith) late))
    loop-ends (suc k) i st late =
        after_poll-ends (is_late i) _ _ (
          inr (λ next. loop-ends k (suc i) next (subst (λ n. is_late n ≡ true) (omega arith) late)))

    -- When the clock passes the deadline at poll `k`, the wait ends within `k + 1` polls.
    pub quiesce-ends : (k : ℕ) → is_late k ≡ true → quiesce rows_now is_late (suc k) ≢ out_of_fuel
    unfolding quiesce
    quiesce-ends k late = loop-ends k 0 start (subst (λ n. is_late n ≡ true) (omega arith) late)
