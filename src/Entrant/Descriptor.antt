-- ===== src/Entrant/Descriptor.antt =====
-- The descriptor of harness/src/entrant.rs, after deserialisation. A `BTreeMap` is its entries in
-- key order; `V` is the type of a knob's value, `toml::Value`, a foreign crate's.
use spate_benchmark.Prelude.{
  ℕ, Bool, true, false, Option, none, some, List, [], ◌∷◌, Text, find, text_eq, if◌then◌else◌,
}
use spate_benchmark.Prelude.Int.{ℤ}

abbrev pub Map : Type 0 → Type 0
Map A = List (Text × A)

-- `map.get(k)`
abbrev pub get : {A : Type 0} → Text → Map A → Option A
get k [] = none
get k ((j, a) ∷ m) = if text_eq j k then some a else get k m

pub data Status : Type 0 where
  active planned historical withdrawn : Status

unfoldable pub is_runnable : Status → Bool
is_runnable Status.active = true
is_runnable Status.historical = true
is_runnable Status.planned = false
is_runnable Status.withdrawn = false

pub data Role : Type 0 where
  data_plane control_plane : Role

abbrev pub is_data_plane : Role → Bool
is_data_plane data_plane = true
is_data_plane control_plane = false

pub data Approach : Type 0 where
  realistic tuned stripped : Approach

pub record Identity : Type 0 where
  pub id : Text
  pub licence : Text
  pub language : List Text
  pub status : Status

pub record Display : Type 0 where
  pub order : ℤ
  pub hue : ℕ

pub record VersionSource : Type 0 where
  pub strategy : Text
  pub command : List Text
  pub pinned : Text

pub record Build : Type 0 where
  pub context : Text
  pub dockerfile : Text
  pub image : Text

pub record Container : Type 0 where
  pub role : Role
  pub name : Text
  pub cpus : Text
  pub memory : Text
  pub args : List Text
  pub gc_log : Option Text

pub record Envelope : Type 0 where
  pub cpus : Text
  pub memory : Text
  pub containers : List Container

-- The containers that the envelope declares, if there is one.
abbrev pub declared_containers : Option Envelope → List Container
declared_containers none = []
declared_containers (some env) = env.containers

pub record Guarantees : Type 0 where
  pub delivery : Text
  pub durability : Text
  pub interval_ms : ℕ

pub record Variant (V : Type 0) : Type 0 where
  pub id : Text
  pub label : Text
  pub approach : Approach
  pub unshipped : List Text
  pub default : Bool
  pub env : Map Text
  pub knobs : Map V
  pub reports : Map Text

pub record Constraint : Type 0 where
  pub knob : Text
  pub exceeds : Option Text
  pub at_least : Option ℤ
  pub why : Text

pub record Deviation : Type 0 where
  pub what : Text
  pub why : Text
  pub affects : List Text

pub record ClickhouseSpec : Type 0 where
  pub arm_sql : Text
  pub arm_teardown_sql : Text
  pub attribution_tables : List Text
  pub forwarded_inserts : Bool

pub record Spec (V : Type 0) : Type 0 where
  pub schema : ℕ
  pub entrant : Identity
  pub display : Display
  pub version : Option VersionSource
  pub build : Option Build
  pub envelope : Option Envelope
  pub guarantees : Option Guarantees
  pub env : Map Text
  pub variants : List (Variant V)
  pub constraints : List Constraint
  pub deviations : List Deviation
  pub clickhouse : Option ClickhouseSpec
  pub planned : Bool  -- whether the [planned] section is there

pub record Entrant (V : Type 0) : Type 0 where
  pub dir_name : Text  -- the last component of `dir`
  pub spec : Spec V

module _ {V : Type 0} where
  abbrev pub id : Entrant V → Text
  id e = e.spec.entrant.id

  abbrev pub first : List (Variant V) → Option (Variant V)
  first [] = none
  first (v ∷ vs) = some v

  abbrev pub or_else : Option (Variant V) → Option (Variant V) → Option (Variant V)
  or_else none o = o
  or_else (some v) o = some v

  unfoldable pub default_variant : Entrant V → Option (Variant V)
  default_variant e = or_else (find (λ v. v.default) e.spec.variants) (first e.spec.variants)

  unfoldable pub variant : Entrant V → Text → Option (Variant V)
  variant e i = find (λ v. text_eq v.id i) e.spec.variants

  -- `data_plane`: the single container of the data plane.
  unfoldable pub data_plane_container : Entrant V → Option Container
  data_plane_container e = find (λ c. is_data_plane c.role) (declared_containers e.spec.envelope)
