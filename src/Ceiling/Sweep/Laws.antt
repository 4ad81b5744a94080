-- ===== src/Ceiling/Sweep/Laws.antt =====
-- The ladder climbs, ends, and keeps the best rung.
use spate_benchmark.Prelude.{
  ℕ, zero, suc, ◌+◌, ◌*◌, ◌^◌, ◌≤◌, ◌<◌, min, max, Bool, true, false, Option, none, some, List, [],
  ◌∷◌, ◌++◌, leb, if◌then◌else◌, is_empty, length, ◌≡◌, refl, arith, ◌⊎◌, inl, inr, length-append,
  Bool-cases, All, Option-cases,
}
use native.Mathlib.Nat.{pow-suc, le_trans, mul-le-mul_right}
use spate_benchmark.Ceiling.Float.{Float}
use spate_benchmark.Ceiling.Sweep.{
  SweepPoint, Sweep, max_u64, new, observe, LoopEnd, ended, undrivable, failed, out_of_fuel, drive,
}

abbrev pub InLadder : ℕ → Option ℕ → Type 0
InLadder top none = Unit
InLadder top (some c) = (1 ≤ c) × (c ≤ top)

-- Every point before the next rung is at a lower concurrency.
abbrev pub Below : Option ℕ → List SweepPoint → Type 0
Below none ps = Unit
Below (some c) ps = All (λ p. p.concurrency < c) ps

pub record IsValid (s : Sweep) : Type 0 where
  pub step_ge : 2 ≤ s.step
  pub max_pos : 1 ≤ s.max_rung
  pub max_fits : s.max_rung ≤ max_u64
  pub rung : InLadder s.max_rung s.next
  -- the misses are the points behind the best
  pub counted :
      (length s.points ≡ 0) × (s.best ≡ 0) × (s.misses ≡ 0)
      ⊎ (s.misses + s.best + 1 ≡ length s.points)

-- A new sweep is valid, whatever it is asked for.
pub new-IsValid : (from step top : ℕ) → top ≤ max_u64 → IsValid (new from step top)
unfolding new
new-IsValid from step top h = ground arith

abbrev after : Sweep → ℕ → ℕ → List SweepPoint
after s c rows = s.points ++ record { concurrency = c; rows_per_s = rows } ∷ []

module _ (fl : Float) (s : Sweep) (c rows : ℕ) (valid : IsValid s) (at : s.next ≡ some c) where
  length-after : length (after s c rows) ≡ length s.points + 1
  length-after = length-append s.points (record { concurrency = c; rows_per_s = rows } ∷ [])

  in_ladder : (1 ≤ c) × (c ≤ s.max_rung)
  in_ladder = rw at at valid.rung

  grows : 2 * c ≤ c * s.step
  grows = grind (arith, valid.step_ge)

  next-InLadder :
      (stop : Bool)
      → InLadder s.max_rung
          (if stop then none else some (min (min (c * s.step) max_u64) s.max_rung))
  next-InLadder true = tt
  next-InLadder false = omega (arith, grows, in_ladder, valid.max_pos)

  observe_counted : let t = observe fl s c rows in t.misses + t.best + 1 ≡ length t.points
  unfolding observe
  observe_counted = ground (arith, length-after, valid.counted)

  -- Observing the rung that was asked for keeps a sweep valid.
  pub observe-IsValid : IsValid (observe fl s c rows)
  unfolding observe
  observe-IsValid = record {
    step_ge = valid.step_ge;
    max_pos = valid.max_pos;
    max_fits = valid.max_fits;
    rung = next-InLadder _;
    counted = inr observe_counted;
  }

  -- The next rung is at least twice as high, or it is the highest.
  next_climbs :
      (c' : ℕ)
      → (observe fl s c rows).next ≡ some c'
      → (c < s.max_rung) × (min (2 * c) s.max_rung ≤ c')
  unfolding observe
  next_climbs c' h = ground (arith, grows, in_ladder, valid.max_fits)

-- The sweep in which a loop ended, if it did.
abbrev pub IsEnd : LoopEnd → Type 0
IsEnd out_of_fuel = ⊥
IsEnd _ = Unit

max_rung-observe :
    (fl : Float) (s : Sweep) (c rows : ℕ) → (observe fl s c rows).max_rung ≡ s.max_rung
unfolding observe
max_rung-observe fl s c rows = refl

omega_two : (k : ℕ) → k + 2 ≡ suc (suc k)
omega_two k = omega arith

pow_pos : (k : ℕ) → 1 ≤ 2 ^ k
pow_pos zero = omega arith
pow_pos (suc k) = rw pow-suc (omega (arith, pow_pos k))

climb_by : (c c' top p : ℕ) → 1 ≤ p → top ≤ 2 * c * p → min (2 * c) top ≤ c' → top ≤ c' * p
climb_by c c' top p h1 h2 h3 = elim (Bool-cases (leb (2 * c) top)) [
  | inl low ↦ let double : 2 * c ≤ c' = ground arith in le_trans h2 (mul-le-mul_right p double)
  | inr high ↦ let top_le : top ≤ c' = ground arith in le_trans top_le (grind arith)
]

climb_bound : (c c' top k : ℕ) → top ≤ c * 2 ^ suc k → min (2 * c) top ≤ c' → top ≤ c' * 2 ^ k
climb_bound c c' top k h m =
    let double : c * 2 ^ suc k ≡ 2 * c * 2 ^ k = rw pow-suc (omega arith) in
    climb_by c c' top (2 ^ k) (pow_pos k) (omega arith) m

IsEnd-if : (b : Bool) (c : ℕ) (s : Sweep) → IsEnd (if b then failed c else undrivable c s)
IsEnd-if true c s = tt
IsEnd-if false c s = tt

module _ (fl : Float) (settled : ℕ → Bool) (burst : ℕ → Option ℕ) where
  pub drive_at_end :
      (f : ℕ) (s : Sweep) → s.next ≡ none → drive fl (suc f) settled burst s ≡ ended s
  unfolding drive
  drive_at_end f s e = ground arith

  drive_unsettled :
      (f c : ℕ) (s : Sweep)
      → s.next ≡ some c
      → settled c ≡ false
      → drive fl (suc f) settled burst s ≡ failed c
  unfolding drive
  drive_unsettled f c s at e = ground arith

  drive_error :
      (f c : ℕ) (s : Sweep)
      → s.next ≡ some c
      → settled c ≡ true
      → burst c ≡ none
      → drive fl (suc f) settled burst s ≡ (if is_empty s.points then failed c else undrivable c s)
  unfolding drive
  drive_error f c s at ready e = ground arith

  drive_step :
      (f c rows : ℕ) (s : Sweep)
      → s.next ≡ some c
      → settled c ≡ true
      → burst c ≡ some rows
      → drive fl (suc f) settled burst s ≡ drive fl f settled burst (observe fl s c rows)
  unfolding drive
  drive_step f c rows s at ready e = ground arith

  module _ (P : LoopEnd → Type 0) where
    -- The cases of one round.
    pub drive_cases :
        (f c : ℕ) (s : Sweep)
        → s.next ≡ some c
        → P (failed c)
        → P (if is_empty s.points then failed c else undrivable c s)
        → ((rows : ℕ)
            → settled c ≡ true
            → burst c ≡ some rows
            → P (drive fl f settled burst (observe fl s c rows)))
        → P (drive fl (suc f) settled burst s)
    drive_cases f c s at unsettled bad good = elim (Bool-cases (settled c)) [
      | inr e ↦ rw (drive_unsettled f c s at e) unsettled
      | inl ready ↦ elim (Option-cases (burst c)) [
        | inl e ↦ rw (drive_error f c s at ready e) bad
        | inr (rows, e) ↦ rw (drive_step f c rows s at ready e) (good rows ready e)
      ]
    ]

  drive_ends_at :
      (k c : ℕ) (s : Sweep)
      → IsValid s
      → s.next ≡ some c
      → s.max_rung ≤ c * 2 ^ k
      → IsEnd (drive fl (suc (suc k)) settled burst s)
  drive_ends_at zero c s v at h = drive_cases IsEnd 1 c s at tt (IsEnd-if _ c s) (λ rows _ e.
      elim (Option-cases (observe fl s c rows).next) [
        | inl stop ↦ rw (drive_at_end 0 (observe fl s c rows) stop) tt
        | inr (c', more) ↦ absurd (omega (arith, next_climbs fl s c rows v at c' more))
      ])
  drive_ends_at (suc k) c s v at h =
      drive_cases IsEnd (suc (suc k)) c s at tt (IsEnd-if _ c s) (λ rows _ e.
        elim (Option-cases (observe fl s c rows).next) [
          | inl stop ↦ rw (drive_at_end (suc k) (observe fl s c rows) stop) tt
          | inr (c', more) ↦
              drive_ends_at k c' (observe fl s c rows) (observe-IsValid fl s c rows v at) more (
                rw (max_rung-observe fl s c rows)
                  (climb_bound c c' s.max_rung k h (next_climbs fl s c rows v at c' more).1))
        ])

  -- The sweep of a pass ends: from `from`, at a step of at least two, `k + 1` rungs reach the
  -- highest one, if it is at most 2^k times the first, whether or not the table
  -- settles, and whatever the bursts return.
  pub sweep_ends :
      (from step top k : ℕ)
      → top ≤ max_u64
      → max top 1 ≤ min (max from 1) (max top 1) * 2 ^ k
      → IsEnd (drive fl (k + 2) settled burst (new from step top))
  sweep_ends from step top k fits h = rw (omega_two k) (
      drive_ends_at k (min (max from 1) (max top 1)) (new from step top)
        (new-IsValid from step top fits) (unfold new in refl) (unfold new in h))
