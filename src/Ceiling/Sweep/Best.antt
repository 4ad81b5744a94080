-- ===== src/Ceiling/Sweep/Best.antt =====
-- The rung that wins a sweep.
use spate_benchmark.Prelude.{
  ℕ, zero, suc, ◌+◌, ◌-◌, ◌<◌, Bool, true, false, not, Option, none, some, List, [], ◌∷◌, ◌++◌,
  ◌||◌, ◌==◌, if◌then◌else◌, is_empty, length, get_elem?, drop, drop-append, drop_all, get_elem?-lt,
  ◌∙◌, ap, subst, ◌&&◌, drop-nonempty, get_elem?-append_length, get_elem?-append_left, ◌≡◌, refl,
  arith, inl, inr, length-append, Bool-cases, All, All-append, Option-cases, All-get_elem?,
}
use spate_benchmark.Ceiling.Float.{Float}
use spate_benchmark.Ceiling.Sweep.{
  SweepPoint, Sweep, new, improves, observe, rate_at, LoopEnd, ended, undrivable, failed,
  out_of_fuel, drive, best_point, still_climbing, winner, no_rungs, climbing, conclude,
  conclude_sweep,
}
use spate_benchmark.Ceiling.Sweep.Laws.{drive_cases, drive_at_end}

length_snoc : (ps : List SweepPoint) (q : SweepPoint) → length (ps ++ q ∷ []) ≡ suc (length ps)
length_snoc ps q = omega (arith, length-append ps (q ∷ []))

length_last : (ps : List SweepPoint) (q : SweepPoint) → length (ps ++ q ∷ []) - 1 ≡ length ps
length_last ps q = omega (arith, length-append ps (q ∷ []))

not_first :
    (ps : List SweepPoint) (q : SweepPoint) (b : Bool)
    → (length (ps ++ q ∷ []) == 1 || b) ≡ false
    → (is_empty ps ≡ false) × (b ≡ false)
not_first [] q b h = cc
not_first (p ∷ ps) q b h = (refl, ground arith)

empty_absurd : {b : Bool} → b ≡ true → b ≡ false → ⊥
empty_absurd h n = cc

no_winner : (p : SweepPoint) → no_rungs ≡ winner p → ⊥
no_winner p h = cc

winner_inv :
    (b : Bool) (q p : SweepPoint)
    → (if b then climbing q else winner q) ≡ winner p
    → (b ≡ false) × (q ≡ p)
winner_inv true q p h = cc
winner_inv false q p h = (refl, cc)

not_last :
    (ps : List SweepPoint) (i : ℕ)
    → i < length ps
    → (not (is_empty ps) && (i + 1 == length ps)) ≡ false
    → suc i < length ps
not_last [] i h e = elim h [ ]
not_last (p ∷ ps) i h e = ground arith

module _ (fl : Float) where
  -- `p` is in place `i` of the points, and none behind it improves on it by the margin.
  abbrev pub Unbeaten : List SweepPoint → ℕ → Option SweepPoint → Type 0
  Unbeaten ps i none = is_empty ps ≡ true
  Unbeaten ps i (some p) =
      All (λ q. improves fl p.rows_per_s q.rows_per_s ≡ false) (drop (suc i) ps)

  abbrev pub HasBest : Sweep → Type 0
  HasBest s = Unbeaten s.points s.best (get_elem? s.points s.best)

  module _ (ps : List SweepPoint) (q : SweepPoint) where
    Unbeaten-new : Unbeaten (ps ++ q ∷ []) (length ps) (get_elem? (ps ++ q ∷ []) (length ps))
    Unbeaten-new =
        rw (get_elem?-append_length ps [] q)
          (rw (← length_snoc ps q) (rw (drop_all (ps ++ q ∷ [])) tt))

    Unbeaten-old :
        (i : ℕ)
        → Unbeaten ps i (get_elem? ps i)
        → is_empty ps ≡ false
        → improves fl (rate_at (ps ++ q ∷ []) i) q.rows_per_s ≡ false
        → Unbeaten (ps ++ q ∷ []) i (get_elem? (ps ++ q ∷ []) i)
    Unbeaten-old i h n worse = elim (Option-cases (get_elem? ps i)) [
      | inl e ↦ absurd (empty_absurd (rw e at h) n)
      | inr (p, e) ↦
          let same : get_elem? (ps ++ q ∷ []) i ≡ some p =
            get_elem?-append_left ps (q ∷ []) i (get_elem?-lt ps i e) ∙ e in
          rw same (
            rw (drop-append (suc i) ps (q ∷ []) (get_elem?-lt ps i e)) (
              All-append _ (drop (suc i) ps) (q ∷ []) (rw e at h)
                (rw (same, rate_at) at worse, tt)))
    ]

  observe-HasBest : (s : Sweep) (c rows : ℕ) → HasBest s → HasBest (observe fl s c rows)
  unfolding observe
  observe-HasBest s c rows h =
      let q : SweepPoint = record { concurrency = c; rows_per_s = rows } in
      let worse =
        length (s.points ++ q ∷ []) == 1
        || improves fl (rate_at (s.points ++ q ∷ []) s.best) rows in
      elim (Bool-cases worse) [
        | inl up ↦ rw (up, length_last s.points q) (Unbeaten-new s.points q)
        | inr down ↦ rw down (
            Unbeaten-old s.points q s.best h (not_first s.points q _ down).0
              (not_first s.points q _ down).1)
      ]

  -- `P` holds of the sweep in which a loop ended.
  abbrev EndHas : (Sweep → Type 0) → LoopEnd → Type 0
  EndHas P (ended s) = P s
  EndHas P (undrivable c s) = P s
  EndHas P (failed c) = Unit
  EndHas P out_of_fuel = Unit

  module _ (settled : ℕ → Bool) (burst : ℕ → Option ℕ) where
    -- A rung that was measured, on a table that had settled.
    abbrev pub IsMeasured : SweepPoint → Type 0
    IsMeasured p = (settled p.concurrency ≡ true) × (burst p.concurrency ≡ some p.rows_per_s)

    module _ (P : Sweep → Type 0)
        (keeps : (s : Sweep) (c rows : ℕ)
          → settled c ≡ true
          → burst c ≡ some rows
          → P s
          → P (observe fl s c rows)) where
      EndHas-if :
          (b : Bool) (c : ℕ) (s : Sweep) → P s → EndHas P (if b then failed c else undrivable c s)
      EndHas-if true c s h = tt
      EndHas-if false c s h = h

      drive_keeps : (fuel : ℕ) (s : Sweep) → P s → EndHas P (drive fl fuel settled burst s)
      drive_keeps zero s h = unfold drive in tt
      drive_keeps (suc fuel) s h = elim (Option-cases s.next) [
        | inl stop ↦ rw (drive_at_end fl settled burst fuel s stop) h
        | inr (c, at) ↦
            drive_cases fl settled burst (EndHas P) fuel c s at tt (EndHas-if _ c s h)
              (λ rows ready e. drive_keeps fuel (observe fl s c rows) (keeps s c rows ready e h))
      ]

    abbrev IsSound : Sweep → Type 0
    IsSound s = HasBest s × All IsMeasured s.points

    observe-IsSound :
        (s : Sweep) (c rows : ℕ)
        → settled c ≡ true
        → burst c ≡ some rows
        → IsSound s
        → IsSound (observe fl s c rows)
    observe-IsSound s c rows ready e (h, m) = (
      observe-HasBest s c rows h,
      unfold observe in All-append IsMeasured s.points _ m ((ready, e), tt),
    )

    -- What a winner is, with the points that it won against.
    pub record Wins (p : SweepPoint) (s : Sweep) : Type 0 where
      pub found : get_elem? s.points s.best ≡ some p
      pub measured : IsMeasured p
      pub followed : is_empty (drop (suc s.best) s.points) ≡ false
      pub unbeaten :
          All (λ q. improves fl p.rows_per_s q.rows_per_s ≡ false) (drop (suc s.best) s.points)

    abbrev pub EndWins : SweepPoint → LoopEnd → Type 0
    EndWins p (ended s) = Wins p s
    EndWins p (undrivable c s) = Wins p s
    EndWins p (failed c) = ⊥
    EndWins p out_of_fuel = ⊥

    conclude_sweep-Wins :
        (p : SweepPoint) (s : Sweep)
        → IsSound s
        → conclude_sweep s (best_point s) ≡ winner p
        → Wins p s
    unfolding conclude_sweep best_point still_climbing
    conclude_sweep-Wins p s (h, m) e = elim (Option-cases (get_elem? s.points s.best)) [
      | inl n ↦ absurd (no_winner p (rw (n, conclude_sweep) at e))
      | inr (q, at) ↦
          let (level, same) = winner_inv _ q p (rw (at, conclude_sweep) at e) in
          let inside : s.best < length s.points = get_elem?-lt s.points s.best at in
          record {
            found = at ∙ ap some same;
            measured = All-get_elem? IsMeasured s.points s.best m (at ∙ ap some same);
            followed = drop-nonempty (suc s.best) s.points (not_last s.points s.best inside level);
            unbeaten =
                subst
                  (λ r.
                    All (λ t. improves fl r.rows_per_s t.rows_per_s ≡ false)
                      (drop (suc s.best) s.points))
                  same (rw at at h);
          }
    ]

    conclude-EndWins :
        (p : SweepPoint) (x : LoopEnd) → EndHas IsSound x → conclude x ≡ winner p → EndWins p x
    unfolding conclude
    conclude-EndWins p (ended s) h e = conclude_sweep-Wins p s h e
    conclude-EndWins p (undrivable c s) h e = conclude_sweep-Wins p s h e
    conclude-EndWins p (failed c) h e = cc
    conclude-EndWins p out_of_fuel h e = cc

    -- The rung that a pass records is one that it measured, on a table that had settled; at least one rung
    -- was measured after it, and no rung after it beat it by the margin.
    pub winner_unbeaten :
        (fuel from step top : ℕ) {p : SweepPoint}
        → conclude (drive fl fuel settled burst (new from step top)) ≡ winner p
        → EndWins p (drive fl fuel settled burst (new from step top))
    winner_unbeaten fuel from step top {p} e =
        conclude-EndWins p _
          (drive_keeps IsSound observe-IsSound fuel (new from step top) (unfold new in (refl, tt)))
          e
