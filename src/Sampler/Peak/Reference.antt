-- ===== src/Sampler/Peak/Reference.antt =====
-- `simultaneous_peak_anon` against the levels of the containers at each bucket's edge.
use spate_benchmark.Prelude.{
  ℕ, zero, suc, ◌+◌, ◌-◌, ◌*◌, ◌/◌, ◌^◌, ◌≤◌, ◌<◌, max, true, false, Option, none, some, List, [],
  ◌∷◌, map, ◌≡◌, refl, arith, all, filter, leb, is_empty, All, Bool-cases, inl, inr, ◌∙◌, ap,
}
use spate_benchmark.Sampler.{Sample, readable, last_of}
use spate_benchmark.Sampler.Peak.{
  Cursor, Peak, peak, no_series, out_of_fuel, edge_of, advance, total, loop, start, keep_min,
  keep_max, first_time, last_time, peak_between, simultaneous_peak_anon,
}
use spate_benchmark.Sampler.Peak.Levels.{
  InOrder, peak_of, AllTrack, AllTrack-advance, total-advance, peak_sum, total-le,
}

AllTrack-start : (b : ℕ) (rss : List (List Sample)) → AllTrack b rss (map start rss)
AllTrack-start b [] = tt
AllTrack-start b (rows ∷ rss) = (λ e le. refl, AllTrack-start b rss)

edge_lem : (b last : ℕ) → b ≤ last → last + 1000 < 2 ^ 64 → edge_of b ≡ b + 1000
edge_lem b last h top = omega arith

loop_lem :
    (n fuel b last best : ℕ) (rss : List (List Sample)) (cs : List Cursor)
    → n < fuel
    → last < b + 1000 * n
    → b + 1000 * n ≤ last + 1000
    → last + 1000 < 2 ^ 64
    → All InOrder rss
    → AllTrack b rss cs
    → loop fuel b last best cs ≡ peak (max best (peak_of n b rss))
unfolding loop
loop_lem n zero b last best rss cs h lo hi top o t = elim h [ ]
loop_lem zero (suc fuel) b last best rss cs h lo hi top o t =
    let ended : leb b last ≡ false = ground arith in rw ended (ap peak (omega arith))
loop_lem (suc n) (suc fuel) b last best rss cs h lo hi top o t =
    let goes_on : leb b last ≡ true = ground arith in
    let le : b ≤ last = omega arith in
    let edge = edge_lem b last le top in
    let moved = map (advance (b + 1000)) cs in
    let level = total-advance b (b + 1000) rss cs (omega arith) o t in
    let rest =
      loop_lem n fuel (b + 1000) last (max best (total moved)) rss moved (omega arith) (omega arith)
        (omega arith) top o (AllTrack-advance b (b + 1000) rss cs (omega arith) t) in
    rw goes_on (rw edge (rest ∙ ap peak (omega (arith, level))))

first_time-nonempty :
    (rss : List (List Sample)) (t : ℕ) → first_time rss ≡ some t → all is_empty rss ≡ false
unfolding first_time
first_time-nonempty [] t h = cc
first_time-nonempty ([] ∷ rss) t h = first_time-nonempty rss t h
first_time-nonempty ((s ∷ ss) ∷ rss) t h = refl

le-last_of : (s : Sample) (ss : List Sample) → InOrder (s ∷ ss) → s.t_ms ≤ (last_of s ss).t_ms
unfolding last_of
le-last_of s [] o = omega arith
le-last_of s (t ∷ ts) ((le, _), o) = omega (arith, le-last_of t ts o)

keep_min-le : (t : ℕ) (o : Option ℕ) → keep_min t o ≤ t
unfolding keep_min
keep_min-le t none = omega arith
keep_min-le t (some u) = omega arith

le-keep_max : (t : ℕ) (o : Option ℕ) → t ≤ keep_max t o
unfolding keep_max
le-keep_max t none = omega arith
le-keep_max t (some u) = omega arith

value_or_zero : Option ℕ → ℕ
value_or_zero none = 0
value_or_zero (some n) = n

first-le-last :
    (rss : List (List Sample)) (first last : ℕ)
    → All InOrder rss
    → first_time rss ≡ some first
    → last_time rss ≡ some last
    → first ≤ last
unfolding first_time last_time value_or_zero
first-le-last [] first last o f l = cc
first-le-last ([] ∷ rss) first last (_, o) f l = first-le-last rss first last o f l
first-le-last ((s ∷ ss) ∷ rss) first last (o, _) f l =
    let f' : keep_min s.t_ms (first_time rss) ≡ first = ap value_or_zero f in
    let l' : keep_max (last_of s ss).t_ms (last_time rss) ≡ last = ap value_or_zero l in
    omega (
      arith,
      f',
      l',
      keep_min-le s.t_ms (first_time rss),
      le-keep_max (last_of s ss).t_ms (last_time rss),
      le-last_of s ss o,
    )

-- For series in time order that end at least a bucket before the largest timestamp, the peak is the
-- largest, over the edges of the buckets from the first reading to the last, of what the
-- containers last read before the edge, added up; fuel for one round more than there are buckets is
-- enough.
pub simultaneous_peak_anon_lem :
    (series : List (List Sample)) (first last fuel : ℕ)
    → first_time (map (filter readable) series) ≡ some first
    → last_time (map (filter readable) series) ≡ some last
    → All InOrder (map (filter readable) series)
    → last + 1000 < 2 ^ 64
    → (last - first) / 1000 + 1 < fuel
    → simultaneous_peak_anon fuel series
      ≡ peak (peak_of ((last - first) / 1000 + 1) first (map (filter readable) series))
unfolding simultaneous_peak_anon
simultaneous_peak_anon_lem series first last fuel f l o top enough =
    let rss = map (filter readable) series in
    let le = first-le-last rss first last o f l in
    let found =
      loop_lem ((last - first) / 1000 + 1) fuel first last 0 rss (map start rss) enough
        (omega arith) (omega arith) top o (AllTrack-start first rss) in
    rw (first_time-nonempty rss first f) (rw (f, l) (found ∙ ap peak (omega arith)))

peak_value : Peak → ℕ
peak_value (peak p) = p
peak_value no_series = 0
peak_value out_of_fuel = 0

loop-le :
    (fuel b last best k : ℕ) (rss : List (List Sample)) (cs : List Cursor) (p : ℕ)
    → last < 2 ^ 64 - 1
    → AllTrack b rss cs
    → best ≤ k
    → peak_sum rss ≤ k
    → loop fuel b last best cs ≡ peak p
    → p ≤ k
unfolding loop peak_value
loop-le zero b last best k rss cs p top t h s e = cc
loop-le (suc fuel) b last best k rss cs p top t h s e = elim (Bool-cases (leb b last)) [
  | inr ended ↦ let found : best ≡ p = ap peak_value (rw ended at e) in omega arith
  | inl goes_on ↦
      let le : b ≤ edge_of b = ground arith in
      let moved = map (advance (edge_of b)) cs in
      let within = total-le b (edge_of b) rss cs le t in
      loop-le fuel (edge_of b) last (max best (total moved)) k rss moved p top
        (AllTrack-advance b (edge_of b) rss cs le t) (omega arith) s (rw goes_on at e)
]

peak_between-le :
    (fuel : ℕ) (o : Option ℕ) (last p : ℕ) (rss : List (List Sample))
    → last < 2 ^ 64 - 1
    → peak_between fuel o (some last) rss ≡ peak p
    → p ≤ peak_sum rss
unfolding peak_between
peak_between-le fuel none last p rss top h = cc
peak_between-le fuel (some first) last p rss top h =
    loop-le fuel first last 0 (peak_sum rss) rss (map start rss) p top (AllTrack-start first rss)
      (omega arith) (omega arith) h

-- The peak of an arm is at most its containers' own peaks added up, where the last reading stands
-- before the largest timestamp.
pub simultaneous_peak_anon-le :
    (series : List (List Sample)) (last fuel p : ℕ)
    → last_time (map (filter readable) series) ≡ some last
    → last < 2 ^ 64 - 1
    → simultaneous_peak_anon fuel series ≡ peak p
    → p ≤ peak_sum (map (filter readable) series)
unfolding simultaneous_peak_anon
simultaneous_peak_anon-le series last fuel p l top h =
    let rss = map (filter readable) series in
    elim (Bool-cases (all is_empty rss)) [
      | inl empty ↦ let bad : no_series ≡ peak p = rw empty at h in cc
      | inr filled ↦
          let found : peak_between fuel (first_time rss) (last_time rss) rss ≡ peak p =
            rw filled at h in
          let between : peak_between fuel (first_time rss) (some last) rss ≡ peak p =
            rw l at found in
          peak_between-le fuel (first_time rss) last p rss top between
    ]
