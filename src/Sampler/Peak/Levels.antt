-- ===== src/Sampler/Peak/Levels.antt =====
-- What the cursors of `simultaneous_peak_anon` hold at a bucket's edge.
use spate_benchmark.Prelude.{
  ℕ, zero, suc, ◌+◌, ◌≤◌, max, true, false, Option, none, some, List, [], ◌∷◌, map, ◌≡◌, refl,
  arith, if◌then◌else◌, ltb, All, Bool-cases, inl, inr, ◌∙◌, ap, sym,
}
use spate_benchmark.Prelude.Int.{ℤ, pos_part}
use spate_benchmark.Sampler.{Sample, max_over}
use spate_benchmark.Sampler.Peak.{Cursor, advance_rows, advance, held_value, total}

-- The reading of the last row before the edge, or `v` where there is none.
abbrev pub last_before : ℕ → List Sample → ℕ → ℕ
last_before edge [] v = v
last_before edge (s ∷ ss) v = last_before edge ss (if ltb s.t_ms edge then pos_part s.anon else v)

-- What the containers held at the edge, between them.
abbrev pub level_sum : ℕ → List (List Sample) → ℕ
level_sum edge [] = 0
level_sum edge (rows ∷ rss) = last_before edge rows 0 + level_sum edge rss

-- The largest sum at the edges of `n` buckets.
abbrev pub peak_of : ℕ → ℕ → List (List Sample) → ℕ
peak_of zero bucket rss = 0
peak_of (suc n) bucket rss = max (level_sum (bucket + 1000) rss) (peak_of n (bucket + 1000) rss)

-- The times of the rows do not go back.
abbrev pub InOrder : List Sample → Type 0
InOrder [] = Unit
InOrder (s ∷ ss) = All (λ t. s.t_ms ≤ t.t_ms) ss × InOrder ss

-- An advance to a later edge starts where an earlier one stopped.
advance-advance_rows :
    (e e' : ℕ) (h : Option ℤ) (rows : List Sample)
    → e ≤ e'
    → advance e' (advance_rows e h rows) ≡ advance_rows e' h rows
unfolding advance_rows
advance-advance_rows e e' h [] le = refl
advance-advance_rows e e' h (s ∷ ss) le = elim (Bool-cases (ltb s.t_ms e)) [
  | inl before ↦
      let also : ltb s.t_ms e' ≡ true = ground arith in
      rw (before, also) (advance-advance_rows e e' (some s.anon) ss le)
  | inr at_edge ↦ rw at_edge refl
]

last_before_none :
    (e : ℕ) (rows : List Sample) (v : ℕ) → All (λ t. e ≤ t.t_ms) rows → last_before e rows v ≡ v
last_before_none e [] v h = refl
last_before_none e (s ∷ ss) v (le, h) =
    let late : ltb s.t_ms e ≡ false = ground arith in rw late (last_before_none e ss v h)

All-le :
    (a b : ℕ) (rows : List Sample) → a ≤ b → All (λ t. b ≤ t.t_ms) rows → All (λ t. a ≤ t.t_ms) rows
All-le a b [] le h = tt
All-le a b (s ∷ ss) le (x, h) = (omega arith, All-le a b ss le h)

pub held_value-advance_rows :
    (e : ℕ) (h : Option ℤ) (rows : List Sample)
    → InOrder rows
    → held_value (advance_rows e h rows).held ≡ last_before e rows (held_value h)
unfolding advance_rows
held_value-advance_rows e h [] o = refl
held_value-advance_rows e h (s ∷ ss) (later, o) = elim (Bool-cases (ltb s.t_ms e)) [
  | inl before ↦ rw before (held_value-advance_rows e (some s.anon) ss o)
  | inr late ↦
      let le : e ≤ s.t_ms = ground arith in
      rw late (sym (last_before_none e ss (held_value h) (All-le e s.t_ms ss le later)))
]

pub held_value-le :
    (e : ℕ) (h : Option ℤ) (rows : List Sample)
    → held_value (advance_rows e h rows).held ≤ max (held_value h) (max_over (λ s. s.anon) rows)
unfolding advance_rows max_over
held_value-le e h [] = omega arith
held_value-le e h (s ∷ ss) = elim (Bool-cases (ltb s.t_ms e)) [
  | inl before ↦ rw before (omega (arith, held_value-le e (some s.anon) ss))
  | inr late ↦ rw late (omega arith)
]

-- From `bucket` on the cursor goes where one from the start of the rows would go.
abbrev pub Tracks : ℕ → List Sample → Cursor → Type 0
Tracks bucket rows c = (e : ℕ) → bucket ≤ e → advance e c ≡ advance_rows e none rows

abbrev pub AllTrack : ℕ → List (List Sample) → List Cursor → Type 0
AllTrack bucket [] [] = Unit
AllTrack bucket [] (c ∷ cs) = ⊥
AllTrack bucket (rows ∷ rss) [] = ⊥
AllTrack bucket (rows ∷ rss) (c ∷ cs) = Tracks bucket rows c × AllTrack bucket rss cs

pub AllTrack-advance :
    (b e : ℕ) (rss : List (List Sample)) (cs : List Cursor)
    → b ≤ e
    → AllTrack b rss cs
    → AllTrack e rss (map (advance e) cs)
AllTrack-advance b e [] [] le _ = tt
AllTrack-advance b e [] (c ∷ cs) le h = elim h [ ]
AllTrack-advance b e (rows ∷ rss) [] le h = elim h [ ]
AllTrack-advance b e (rows ∷ rss) (c ∷ cs) le (t, h) = (
  λ e' le'. ap (advance e') (t e le) ∙ advance-advance_rows e e' none rows le',
  AllTrack-advance b e rss cs le h,
)

pub total-advance :
    (b e : ℕ) (rss : List (List Sample)) (cs : List Cursor)
    → b ≤ e
    → All InOrder rss
    → AllTrack b rss cs
    → total (map (advance e) cs) ≡ level_sum e rss
unfolding total
total-advance b e [] [] le o _ = refl
total-advance b e [] (c ∷ cs) le o h = elim h [ ]
total-advance b e (rows ∷ rss) [] le o h = elim h [ ]
total-advance b e (rows ∷ rss) (c ∷ cs) le (o, os) (t, h) =
    let here : held_value (advance e c).held ≡ last_before e rows 0 =
      ap (λ d. held_value d.held) (t e le) ∙ held_value-advance_rows e none rows o in
    omega (arith, here, total-advance b e rss cs le os h)

-- Every container's own largest reading, added up.
abbrev pub peak_sum : List (List Sample) → ℕ
peak_sum [] = 0
peak_sum (rows ∷ rss) = max_over (λ s. s.anon) rows + peak_sum rss

pub total-le :
    (b e : ℕ) (rss : List (List Sample)) (cs : List Cursor)
    → b ≤ e
    → AllTrack b rss cs
    → total (map (advance e) cs) ≤ peak_sum rss
unfolding total
total-le b e [] [] le _ = omega arith
total-le b e [] (c ∷ cs) le h = elim h [ ]
total-le b e (rows ∷ rss) [] le h = elim h [ ]
total-le b e (rows ∷ rss) (c ∷ cs) le (t, h) =
    let here : held_value (advance e c).held ≡ held_value (advance_rows e none rows).held =
      ap (λ d. held_value d.held) (t e le) in
    omega (arith, here, held_value-le e none rows, total-le b e rss cs le h)
