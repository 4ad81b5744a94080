-- ===== src/Driver/Overrides.antt =====
-- The knobs of one arm with an invocation's overrides: harness/src/driver.rs. A problem is the data that
-- its sentence shows.
pub mod Effective
pub mod Kept
pub mod Valid
mod Examples
use spate_benchmark.Prelude.{
  ℕ, Bool, true, false, not, Option, none, some, List, [], ◌∷◌, ◌++◌, map, Text, text_eq,
  if◌then◌else◌, any, ltb, ◌==◌,
}
use spate_benchmark.Prelude.Int.{ℤ}
use spate_benchmark.Entrant.Descriptor.{Map, Constraint}
use spate_benchmark.Entrant.Knobs.{Violation, keys, knob_violations}

-- The order of texts.
pub text_lt : Text → Text → Bool
text_lt [] [] = false
text_lt [] (d ∷ t) = true
text_lt (c ∷ s) [] = false
text_lt (c ∷ s) (d ∷ t) = let rest = text_lt s t in if c == d then rest else ltb c d

-- `out.insert(k, v)`: the entries stay in the order of their keys.
pub insert : {V : Type 0} → Text → V → Map V → Map V
unfolding text_lt
insert k v [] = (k, v) ∷ []
insert k v ((l, w) ∷ rest) =
    let more = insert k v rest in
    if text_eq l k
    then (k, v) ∷ rest
    else if text_lt k l
    then (k, v) ∷ (l, w) ∷ rest
    else (l, w) ∷ more

-- `for (k, v) in &self.knobs`
unfoldable pub insert_all : {V : Type 0} → Map V → Map V → Map V
unfolding insert
insert_all out [] = out
insert_all out ((k, v) ∷ rest) = insert_all (insert k v out) rest

-- `RunOptions::knobs_for`: the overrides, and the variant's knobs.
unfoldable pub knobs_for : {V : Type 0} → Map V → Map V → Map V
unfolding insert_all
knobs_for overrides declared = insert_all declared overrides

pub data Problem : Type 0 where
  undeclared : Text → List Text → Problem
  violated : Violation → Problem

module _ {V : Type 0} (as_integer : V → Option ℤ) where
  pub undeclared_knobs : Map V → List Text → List Problem
  undeclared_knobs declared [] = []
  undeclared_knobs declared (name ∷ names) =
      let rest = undeclared_knobs declared names in
      if any (λ k. text_eq k name) (keys declared)
      then rest
      else undeclared name (keys declared) ∷ rest

  -- The variant's knobs, the entrant's constraints, and the overrides.
  pub unrunnable_knobs : Map V → List Constraint → Map V → List Problem
  unfolding undeclared_knobs
  unrunnable_knobs declared constraints overrides =
      undeclared_knobs declared (keys overrides)
      ++ map violated (knob_violations as_integer constraints (knobs_for overrides declared))
