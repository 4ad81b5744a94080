-- ===== src/Entrant/Load/Accepted.antt =====
-- The directories that load.
use spate_benchmark.Prelude.{
  ℕ, ◌-◌, ◌+◌, ◌≤◌, min, arith, some, List, [], ◌∷◌, ◌++◌, map, Text, map-nil, ◌≡◌, ◌↔◌, refl, ap,
  ◌∙◌, All, append-nil_iff,
}
use spate_benchmark.Entrant.Descriptor.{Entrant}
use spate_benchmark.Entrant.Validate.{Reads, validate}
use spate_benchmark.Entrant.Load.{
  Found, missing, unreadable, unparsable, parsed, Loaded, ok, err, LoadError, invalid, cross_check,
  errors_of, accepted, errors_in, entrants_in, finish, load_all,
}
use spate_benchmark.Entrant.Load.Crossed.{Pairwise, Apart, Differ, hues, cross_check-nil}

-- The angle between two hues, in degrees.
abbrev pub angle : ℕ × Text → ℕ × Text → ℕ
angle h k = let d = (h.0 - k.0) + (k.0 - h.0) in min d (360 - d)

abbrev pub AngleApart : ℕ × Text → ℕ × Text → Type 0
AngleApart h k = 20 ≤ angle h k

-- That a hue is far enough below the full turn for angles to differ as numbers do.
abbrev pub IsClear : ℕ × Text → Type 0
IsClear h = h.0 ≤ 340

All-Apart :
    (h : ℕ × Text) (ks : List (ℕ × Text))
    → IsClear h
    → All IsClear ks
    → All (Apart h) ks ↔ All (AngleApart h) ks
All-Apart h [] c _ = (λ a. a, λ a. a)
All-Apart h (k ∷ ks) c (d, ds) =
    let (to, from) = All-Apart h ks c ds in
    (λ (a, b). (ground arith, to b), λ (a, b). (ground arith, from b))

Pairwise-Apart :
    (hs : List (ℕ × Text)) → All IsClear hs → Pairwise Apart hs ↔ Pairwise AngleApart hs
Pairwise-Apart [] _ = (λ a. a, λ a. a)
Pairwise-Apart (h ∷ hs) (c, cs) =
    let (here, back) = All-Apart h hs c cs in
    let (to, from) = Pairwise-Apart hs cs in (λ (a, b). (here a, to b), λ (a, b). (back a, from b))

module _ {V : Type 0} (reads : Reads V) where
  abbrev pub AllValid : List (Entrant V) → Type 0
  AllValid = All (λ e. validate reads e ≡ [])

  abbrev pub OkIs : Loaded reads.fl.F V → List (Entrant V) → Type 0
  OkIs (ok es) fs = es ≡ fs
  OkIs (err xs) fs = ⊥

  accepted-parsed : (e : Entrant V) → validate reads e ≡ [] → accepted reads (parsed e) ≡ e ∷ []
  unfolding accepted
  accepted-parsed e v = rw v refl

  errors_of-parsed :
      (f : Found V)
      → errors_of reads f ≡ []
      → (e : Entrant V) × (f ≡ parsed e) × (validate reads e ≡ [])
  unfolding errors_of
  errors_of-parsed (missing d) h = cc
  errors_of-parsed (unreadable p w) h = cc
  errors_of-parsed (unparsable p w) h = cc
  errors_of-parsed (parsed e) h = (e, refl, (map-nil invalid (validate reads e)).0 h)

  -- Without an error, every directory has a descriptor that is valid, and these are the entrants.
  errors_in-parsed :
      (found : List (Found V))
      → errors_in reads found ≡ []
      → (found ≡ map parsed (entrants_in reads found)) × AllValid (entrants_in reads found)
  unfolding errors_in entrants_in
  errors_in-parsed [] h = (refl, tt)
  errors_in-parsed (f ∷ fs) h =
      let (p, q) = (append-nil_iff (errors_of reads f) (errors_in reads fs)).0 h in
      let (e, is, v) = errors_of-parsed f p in
      let (all, valid) = errors_in-parsed fs q in
      let a : accepted reads f ≡ e ∷ [] = ap (accepted reads) is ∙ accepted-parsed e v in
      rw a (ap (λ g. g ∷ fs) is ∙ ap (λ gs. parsed e ∷ gs) all, (v, valid))

  entrants_in-parsed :
      (es : List (Entrant V)) → AllValid es → entrants_in reads (map parsed es) ≡ es
  unfolding entrants_in
  entrants_in-parsed [] _ = refl
  entrants_in-parsed (e ∷ es) (v, vs) =
      ap (λ a. a ++ entrants_in reads (map parsed es)) (accepted-parsed e v)
      ∙ ap (λ r. e ∷ r) (entrants_in-parsed es vs)

  no_errors_in : (es : List (Entrant V)) → AllValid es → errors_in reads (map parsed es) ≡ []
  unfolding errors_in errors_of
  no_errors_in [] _ = refl
  no_errors_in (e ∷ es) (v, vs) = rw v (no_errors_in es vs)

  finish_iff :
      (fs : List (Entrant V)) (xs : List (LoadError reads.fl.F)) (es : List (Entrant V))
      → OkIs (finish reads fs xs) es ↔ ((fs ≡ es) × (xs ≡ []))
  unfolding finish
  finish_iff fs [] es = (λ h. (h, refl), λ h. h.0)
  finish_iff fs (x ∷ xs) es = (λ h. absurd h, λ h. cc (h.1))

  -- The hues count as numbers here.
  load_all_numbers :
      (found : List (Found V)) (why : Text) (es : List (Entrant V))
      → OkIs (load_all reads (some found) why) es
        ↔ ((found ≡ map parsed es) × AllValid es × Pairwise Differ es × Pairwise Apart (hues es))
  unfolding load_all
  load_all_numbers found why es =
      let fs = entrants_in reads found in
      let (split, join) = append-nil_iff (errors_in reads found) (cross_check fs) in
      let (to, from) = finish_iff fs (errors_in reads found ++ cross_check fs) es in
      (
        λ h.
            let (is, none_of) = to h in
            let (p, q) = split none_of in
            let (all, valid) = errors_in-parsed found p in
            let (orders, far) = (cross_check-nil fs).0 q in rw (← is) (all, valid, orders, far),
        λ (is, valid, orders, far).
            let at : fs ≡ es = ap (entrants_in reads) is ∙ entrants_in-parsed es valid in
            let q : cross_check {F = reads.fl.F} fs ≡ [] =
              ap cross_check at ∙ (cross_check-nil es).1 (orders, far) in
            from (at, join (ap (errors_in reads) is ∙ no_errors_in es valid, q)),
      )

  -- Where no hue is above 340, twenty degrees below the full turn, the directory loads as some entrants exactly
  -- when each of its directories has a descriptor that can be read and is valid, these are the entrants,
  -- in order, no two of them have the same display order, and the angle between every two hues is at
  -- least twenty degrees.
  pub load_all-ok :
      (found : List (Found V)) (why : Text) (es : List (Entrant V))
      → All IsClear (hues es)
      → OkIs (load_all reads (some found) why) es ↔ (
          (found ≡ map parsed es)
          × AllValid es
          × Pairwise Differ es
          × Pairwise AngleApart (hues es))
  load_all-ok found why es clear =
      let (to, from) = load_all_numbers found why es in
      let (out, back) = Pairwise-Apart (hues es) clear in
      (
        λ h. let (is, valid, orders, far) = to h in (is, valid, orders, out far),
        λ (is, valid, orders, far). from (is, valid, orders, back far),
      )
