-- ===== src/Driver/Overrides/Effective.antt =====
-- Which value a knob has, and when no problem is reported.
use spate_benchmark.Prelude.{
  true, false, Option, none, some, List, [], ◌∷◌, map, Text, text_eq, eq_of_text_eq, if◌then◌else◌,
  any, ◌≡◌, ◌↔◌, refl, ap, sym, ◌∙◌, arith, All, Bool-cases, inl, inr, append-nil_iff, map-nil,
}
use spate_benchmark.Prelude.Int.{ℤ}
use spate_benchmark.Entrant.Descriptor.{Map, get, Constraint}
use spate_benchmark.Entrant.Knobs.{keys, knob_violations}
use spate_benchmark.Entrant.Knobs.Met.{IsMet, knob_violations-nil}
use spate_benchmark.Driver.Overrides.{
  text_lt, insert, insert_all, knobs_for, violated, undeclared_knobs, unrunnable_knobs,
}

-- The value of the first, or that of the second.
abbrev pub or_else : {V : Type 0} → Option V → Option V → Option V
or_else (some v) o = some v
or_else none o = o

same-name : (l k name : Text) → text_eq l k ≡ true → text_eq l name ≡ text_eq k name
same-name l k name e = ap (λ t. text_eq t name) (eq_of_text_eq l k e)

-- Two names that differ are not both the one that is sought.
other-name :
    (l k name : Text) → text_eq l k ≡ false → text_eq k name ≡ true → text_eq l name ≡ false
other-name l k name n e = ap (λ t. text_eq l t) (sym (eq_of_text_eq k name e)) ∙ n

get-insert :
    {V : Type 0} (k : Text) (v : V) (m : Map V) (name : Text)
    → get name (insert k v m) ≡ (if text_eq k name then some v else get name m)
unfolding insert
get-insert k v [] name = refl
get-insert k v ((l, w) ∷ rest) name = elim (Bool-cases (text_eq l k)) [
  | inl e ↦ rw (e, same-name l k name e) (ground arith)
  | inr n ↦ rw n (elim (Bool-cases (text_lt k l)) [
    | inl t ↦ rw t refl
    | inr t ↦
        rw (t, get-insert k v rest name)
          (elim (Bool-cases (text_eq k name)) [
            | inl e ↦ rw (e, other-name l k name n e) refl
            | inr f ↦ rw f refl
          ])
  ])
]

-- No key stands twice.
abbrev pub Unique : {V : Type 0} → Map V → Type 0
Unique [] = Unit
Unique ((k, v) ∷ rest) = (get k rest ≡ none) × Unique rest

get-insert_all :
    {V : Type 0} (out overrides : Map V) (name : Text)
    → Unique overrides
    → get name (insert_all out overrides) ≡ or_else (get name overrides) (get name out)
unfolding insert_all
get-insert_all out [] name _ = refl
get-insert_all out ((k, v) ∷ rest) name (n, u) =
    get-insert_all (insert k v out) rest name u
    ∙ ap (or_else (get name rest)) (get-insert k v out name)
    ∙ (elim (Bool-cases (text_eq k name)) [
      | inl e ↦ rw (e, ap (λ t. get t rest) (sym (eq_of_text_eq k name e)) ∙ n) refl
      | inr f ↦ rw f refl
    ])

-- The value that a knob runs with is the override's where there is one, and else the one that the
-- variant declares.
pub get-knobs_for :
    {V : Type 0} (overrides declared : Map V) (name : Text)
    → Unique overrides
    → get name (knobs_for overrides declared) ≡ or_else (get name overrides) (get name declared)
unfolding knobs_for
get-knobs_for overrides declared name u = get-insert_all declared overrides name u

module _ {V : Type 0} (as_integer : V → Option ℤ) where
  undeclared_knobs-nil :
      (declared : Map V) (names : List Text)
      → (undeclared_knobs as_integer declared names ≡ [])
        ↔ All (λ name. any (λ k. text_eq k name) (keys declared) ≡ true) names
  unfolding undeclared_knobs
  undeclared_knobs-nil declared [] = (λ h. tt, λ h. refl)
  undeclared_knobs-nil declared (name ∷ names) =
      let (to, from) = undeclared_knobs-nil declared names in
      elim (Bool-cases (any (λ k. text_eq k name) (keys declared))) [
        | inl e ↦ rw e (λ h. (refl, to h), λ h. from (h.1))
        | inr n ↦ rw n (λ h. cc, λ h. cc (h.0))
      ]

  -- No problem is reported exactly when every override names a knob that the variant declares and the
  -- effective knobs meet every constraint.
  pub unrunnable_knobs-nil :
      (declared : Map V) (constraints : List Constraint) (overrides : Map V)
      → (unrunnable_knobs as_integer declared constraints overrides ≡ []) ↔ (
          All (λ name. any (λ k. text_eq k name) (keys declared) ≡ true) (keys overrides)
          × All (IsMet as_integer (knobs_for overrides declared)) constraints)
  unfolding unrunnable_knobs
  unrunnable_knobs-nil declared constraints overrides =
      let effective = knobs_for overrides declared in
      let both =
        append-nil_iff (undeclared_knobs as_integer declared (keys overrides))
          (map violated (knob_violations as_integer constraints effective)) in
      let names = undeclared_knobs-nil declared (keys overrides) in
      let mapped = map-nil violated (knob_violations as_integer constraints effective) in
      let met = knob_violations-nil as_integer effective constraints in
      (
        λ h. let (a, b) = both.0 h in (names.0 a, met.0 (mapped.0 b)),
        λ (a, b). both.1 (names.1 a, mapped.1 (met.1 b)),
      )
