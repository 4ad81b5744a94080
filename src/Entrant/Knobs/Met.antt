-- ===== src/Entrant/Knobs/Met.antt =====
-- `knob_violations` against the relations that the constraints state.
use spate_benchmark.Prelude.{append-nil_iff}
use spate_benchmark.Prelude.{
  true, Option, none, some, List, [], ◌∷◌, Text, ◌≡◌, ◌↔◌, refl, arith, All, Bool-cases, inl, inr,
}
use spate_benchmark.Prelude.Int.{ℤ, ltb_ℤ, leb_ℤ, ◌<ℤ◌, ◌≤ℤ◌}
use spate_benchmark.Entrant.Descriptor.{Map, Constraint}
use spate_benchmark.Entrant.Knobs.{
  keys, check_exceeds, check_floor, value, check_relation, knob_violations,
}

-- Both values are known, and the first is above the second.
abbrev pub Above : Option ℤ → Option ℤ → Type 0
Above (some a) (some b) = b <ℤ a
Above _ _ = ⊥

-- The value is known and not below the floor.
abbrev pub AtLeast : Option ℤ → ℤ → Type 0
AtLeast (some a) floor = floor ≤ℤ a
AtLeast none floor = ⊥

ltb_ℤ_iff : (a b : ℤ) → (ltb_ℤ a b ≡ true) ↔ (a <ℤ b)
ltb_ℤ_iff a b = ground arith

leb_ℤ_iff : (a b : ℤ) → (leb_ℤ a b ≡ true) ↔ (a ≤ℤ b)
leb_ℤ_iff a b = ground arith

check_exceeds-nil :
    (c : Constraint) (e : Text) (stated : List Text) (a b : Option ℤ)
    → (check_exceeds c e stated a b ≡ []) ↔ Above a b
unfolding check_exceeds
check_exceeds-nil c e stated none b = (λ h. cc, λ h. absurd h)
check_exceeds-nil c e stated (some a) none = (λ h. cc, λ h. absurd h)
check_exceeds-nil c e stated (some a) (some b) = elim (Bool-cases (ltb_ℤ b a)) [
  | inl above ↦ rw above (λ h. (ltb_ℤ_iff b a).0 above, λ h. refl)
  | inr not_above ↦ rw not_above (λ h. cc, λ h. let above = (ltb_ℤ_iff b a).1 h in cc)
]

check_floor-nil :
    (c : Constraint) (floor : ℤ) (stated : List Text) (a : Option ℤ)
    → (check_floor c floor stated a ≡ []) ↔ AtLeast a floor
unfolding check_floor
check_floor-nil c floor stated none = (λ h. cc, λ h. absurd h)
check_floor-nil c floor stated (some a) = elim (Bool-cases (leb_ℤ floor a)) [
  | inl met ↦ rw met (λ h. (leb_ℤ_iff floor a).0 met, λ h. refl)
  | inr below ↦ rw below (λ h. cc, λ h. let met = (leb_ℤ_iff floor a).1 h in cc)
]

module _ {V : Type 0} (as_integer : V → Option ℤ) (knobs : Map V) where
  -- Exactly one relation is stated, and it holds of the integers under the knobs that it names.
  abbrev pub Relation : Text → Option Text → Option ℤ → Type 0
  Relation knob (some exceeds) none =
      Above (value as_integer knobs knob) (value as_integer knobs exceeds)
  Relation knob none (some floor) = AtLeast (value as_integer knobs knob) floor
  Relation knob _ _ = ⊥

  abbrev pub IsMet : Constraint → Type 0
  IsMet c = Relation c.knob c.exceeds c.at_least

  check_relation-nil :
      (c : Constraint) (e : Option Text) (f : Option ℤ)
      → (check_relation as_integer knobs c e f ≡ []) ↔ Relation c.knob e f
  unfolding check_relation
  check_relation-nil c (some e) none = check_exceeds-nil c e (keys knobs) _ _
  check_relation-nil c none (some f) = check_floor-nil c f (keys knobs) _
  check_relation-nil c none none = (λ h. cc, λ h. absurd h)
  check_relation-nil c (some e) (some f) = (λ h. cc, λ h. absurd h)

  -- No violation is reported exactly when every constraint states one relation and it holds; a knob
  -- that is unset or not an integer does not meet a constraint that names it.
  pub knob_violations-nil :
      (cs : List Constraint) → (knob_violations as_integer cs knobs ≡ []) ↔ All IsMet cs
  unfolding knob_violations
  knob_violations-nil [] = (λ h. tt, λ h. refl)
  knob_violations-nil (c ∷ cs) =
      let split =
        append-nil_iff (check_relation as_integer knobs c c.exceeds c.at_least)
          (knob_violations as_integer cs knobs) in
      let here = check_relation-nil c c.exceeds c.at_least in
      let rest = knob_violations-nil cs in
      (λ h. let (a, b) = split.0 h in (here.0 a, rest.0 b), λ (a, b). split.1 (here.1 a, rest.1 b))
