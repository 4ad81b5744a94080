-- ===== src/Entrant/Knobs.antt =====
-- `knob_violations` of harness/src/entrant.rs. A violation is the data that its sentence shows; toml's
-- `as_integer` is a parameter.
pub mod Met
mod Examples
use spate_benchmark.Prelude.{
  Bool, true, false, Option, none, some, List, [], ◌∷◌, ◌++◌, Text, if◌then◌else◌,
}
use spate_benchmark.Prelude.Int.{ℤ, ltb_ℤ, leb_ℤ}
use spate_benchmark.Entrant.Descriptor.{Map, get, Constraint}

pub data Violation : Type 0 where
  not_exceeding : Text → ℤ → Text → ℤ → Text → Violation
  unchecked_exceeds : Text → Text → List Text → Violation
  below_floor : Text → ℤ → ℤ → Text → Violation
  unchecked_floor : Text → ℤ → List Text → Violation
  malformed : Text → Violation

-- `knobs.keys()`
unfoldable pub keys : {V : Type 0} → Map V → List Text
keys [] = []
keys ((key, v) ∷ rest) = key ∷ keys rest

pub check_exceeds : Constraint → Text → List Text → Option ℤ → Option ℤ → List Violation
check_exceeds c exceeds stated (some a) (some b) =
    if ltb_ℤ b a then [] else not_exceeding c.knob a exceeds b c.why ∷ []
check_exceeds c exceeds stated _ _ = unchecked_exceeds c.knob exceeds stated ∷ []

pub check_floor : Constraint → ℤ → List Text → Option ℤ → List Violation
check_floor c floor stated (some a) =
    if leb_ℤ floor a then [] else below_floor c.knob a floor c.why ∷ []
check_floor c floor stated none = unchecked_floor c.knob floor stated ∷ []

module _ {V : Type 0} (as_integer : V → Option ℤ) where
  integer_of : Option V → Option ℤ
  integer_of none = none
  integer_of (some v) = as_integer v

  -- `knobs.get(name).and_then(toml::Value::as_integer)`
  pub value : Map V → Text → Option ℤ
  unfolding integer_of
  value knobs name = integer_of (get name knobs)

  -- The match on `(&c.exceeds, c.at_least)`.
  pub check_relation : Map V → Constraint → Option Text → Option ℤ → List Violation
  check_relation knobs c (some exceeds) none =
      check_exceeds c exceeds (keys knobs) (value knobs c.knob) (value knobs exceeds)
  check_relation knobs c none (some floor) = check_floor c floor (keys knobs) (value knobs c.knob)
  check_relation knobs c _ _ = malformed c.knob ∷ []

  unfoldable pub knob_violations : List Constraint → Map V → List Violation
  unfolding check_relation check_exceeds check_floor value
  knob_violations [] knobs = []
  knob_violations (c ∷ cs) knobs =
      check_relation knobs c c.exceeds c.at_least ++ knob_violations cs knobs
