-- ===== src/Driver/Specs.antt =====
-- `build_specs` of harness/src/driver.rs: the containers of one arm, from its descriptor.
mod Examples
pub mod Ordered
pub mod Valid
use spate_benchmark.Prelude.{
  ℕ, Bool, true, false, Option, none, some, List, [], ◌∷◌, ◌++◌, map, Text, codes, if◌then◌else◌,
  find, leb,
}
use spate_benchmark.Prelude.Int.{ℤ}
use spate_benchmark.Prelude.Strings.{ends_with}
use spate_benchmark.Entrant.Descriptor.{
  Map, get, Role, data_plane, control_plane, Container, Envelope, Variant, Entrant, id,
}
use spate_benchmark.Driver.Overrides.{insert_all}
use spate_benchmark.Driver.Substitute.{
  Mode, Endpoints, Run, Substituted, ok, unresolved, or_empty, substitute,
}

-- What an invocation brings: toml's readings, the endpoints, the options, the image, the id that makes
-- the consumer group fresh, and the named volumes of the entrant.
pub record Invocation (V : Type 0) : Type 0 where
  pub as_integer : V → Option ℤ
  pub as_str : V → Option Text
  pub ep : Endpoints
  pub mode : Mode
  pub topic : Text
  pub overrides : Map V
  pub image : Text
  pub uuid : Text
  pub volumes : List Text

pub record SutSpec : Type 0 where
  pub name : Text
  pub image : Text
  pub cpus : Text
  pub memory : Text
  pub env : List (Text × Text)
  pub args : List Text
  pub volumes : List Text

pub data Built : Type 0 where
  built : List SutSpec → Built
  no_envelope : Built
  refused : Text → Text → Built

abbrev pub full_name : Text → Text
full_name name = codes "spate-bench-sut-" ++ name

abbrev pub named : Container → Text × Text
named c = (c.name, full_name c.name)

pub container_names : List Container → Map Text
container_names cs = insert_all [] (map named cs)

-- `s.name.ends_with(&c.name)` for the first such container
abbrev role_key : Option Container → ℕ
role_key none = 1
role_key (some c) = elim (c.role) [ control_plane ↦ 0 | data_plane ↦ 1 ]

pub key_of : List Container → SutSpec → ℕ
key_of cs s = role_key (find (λ c. ends_with c.name s.name) cs)

pub insert_by : (SutSpec → ℕ) → SutSpec → List SutSpec → List SutSpec
insert_by key s [] = s ∷ []
insert_by key s (t ∷ ts) =
    let more = insert_by key s ts in if leb (key s) (key t) then s ∷ t ∷ ts else t ∷ more

-- `specs.sort_by_key(key)`, which keeps the order of equal keys
pub sort_by_key : (SutSpec → ℕ) → List SutSpec → List SutSpec
unfolding insert_by
sort_by_key key [] = []
sort_by_key key (s ∷ ss) = insert_by key s (sort_by_key key ss)

-- An environment, or the text that could not be resolved.
pub data Env : Type 0 where
  entries : List (Text × Text) → Env
  unresolved_entry : Text → Text → Env

module _ {V : Type 0} (inv : Invocation V) where
  pub group_id : Text → Text → Text
  group_id entrant variant = codes "comparison-" ++ (entrant ++ b'-' ∷ (variant ++ b'-' ∷ inv.uuid))

  pub run_of : Entrant V → Variant V → List Container → Run V
  unfolding group_id container_names
  run_of e v cs = record {
    as_integer = inv.as_integer;
    as_str = inv.as_str;
    declared = v.knobs;
    ep = inv.ep;
    mode = inv.mode;
    topic = inv.topic;
    overrides = inv.overrides;
    group_id = group_id (id e) v.id;
    containers = container_names cs;
  }

  abbrev pub push_entry : Text → Env → Substituted → Env
  push_entry k rest (unresolved raw out) = unresolved_entry raw out
  push_entry k (entries env) (ok v) = entries ((k, v) ∷ env)
  push_entry k (unresolved_entry raw out) (ok v) = unresolved_entry raw out

  -- The loop over the entrant's variables and the variant's.
  pub env_of : Run V → Map Text → Env
  env_of run [] = entries []
  env_of run ((k, raw) ∷ vars) = push_entry k (env_of run vars) (substitute run raw)

  pub spec_of : Map Text → List (Text × Text) → Container → SutSpec
  spec_of names env c = record {
    name = or_empty (get c.name names);
    image = inv.image;
    cpus = c.cpus;
    memory = c.memory;
    env = env;
    args = c.args;
    volumes = inv.volumes;
  }

  -- The loop over the containers; each has the environment of the arm.
  pub specs_of : Map Text → List Container → Env → Built
  specs_of names [] env = built []
  specs_of names (c ∷ cs) (unresolved_entry raw out) = refused raw out
  specs_of names (c ∷ cs) (entries env) =
      built (sort_by_key (key_of (c ∷ cs)) (map (spec_of names env) (c ∷ cs)))

  pub build_from : Entrant V → Variant V → Option Envelope → Built
  unfolding specs_of run_of env_of spec_of container_names
  build_from e v none = no_envelope
  build_from e v (some envelope) =
      specs_of (container_names envelope.containers) envelope.containers
        (env_of (run_of e v envelope.containers) (e.spec.env ++ v.env))

  pub build_specs : Entrant V → Variant V → Built
  unfolding build_from
  build_specs e v = build_from e v e.spec.envelope
