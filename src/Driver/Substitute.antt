-- ===== src/Driver/Substitute.antt =====
-- `substitute` of harness/src/driver.rs: the value of one environment variable of a container.
pub mod Filled
pub mod One
pub mod Plain
mod Examples
use spate_benchmark.Prelude.{
  ℕ, zero, suc, ◌+◌, ◌-◌, Bool, true, false, Option, none, some, List, [], ◌∷◌, ◌++◌, Text, codes,
  if◌then◌else◌, length,
}
use spate_benchmark.Prelude.Int.{ℤ, pos, negsuc}
use spate_benchmark.Prelude.Strings.{strip_prefix, contains}
use spate_benchmark.Corpus.Decimal.{decimal}
use spate_benchmark.Entrant.Descriptor.{Map, get}
use spate_benchmark.Entrant.Placeholders.{
  Placeholder, broker_internal, registry_internal, clickhouse_internal, topic, group_id,
  offset_reset, clickhouse_password, knob, container, parse, Token, placeholder_tokens,
}
use spate_benchmark.Driver.Windows.{sustained_topic}
use spate_benchmark.Driver.Overrides.{knobs_for}

pub data Mode : Type 0 where
  drain : Mode
  sustained : ℕ → ℕ → Mode

-- `Mode::name`
pub name : Mode → Text
name drain = codes "drain"
name (sustained rate window) = codes "sustained"

-- `Mode::offset_reset`
pub reset_of : Mode → Text
reset_of drain = codes "earliest"
reset_of (sustained rate window) = codes "latest"

pub record Endpoints : Type 0 where
  pub bootstrap_internal : Text
  pub registry_internal : Text
  pub ch_internal : Text
  pub ch_password : Text

-- What the substitution reads: the variant's knobs, the endpoints, the run's options, the group, and the
-- names of the containers. `V` is a toml value.
pub record Run (V : Type 0) : Type 0 where
  pub as_integer : V → Option ℤ
  pub as_str : V → Option Text
  pub declared : Map V
  pub ep : Endpoints
  pub mode : Mode
  pub topic : Text
  pub overrides : Map V
  pub group_id : Text
  pub containers : Map Text

-- `n.to_string()`
abbrev print_i64 : ℤ → Text
print_i64 (pos n) = decimal n
print_i64 (negsuc n) = b'-' ∷ decimal (suc n)

abbrev pub or_empty : Option Text → Text
or_empty none = []
or_empty (some s) = s

abbrev knob_print : Option ℤ → Option Text → Text
knob_print (some n) s = print_i64 n
knob_print none s = or_empty s

abbrev pub topic_of : Mode → Text → Text
topic_of drain base = base
topic_of (sustained rate window) base = sustained_topic base

-- `s.replace(pattern, value)`, after `skip` characters of a match.
pub replace_from : Text → Text → ℕ → Text → Text
replace_from pattern value skip [] = []
replace_from pattern value (suc skip) (c ∷ s) = replace_from pattern value skip s
replace_from pattern value zero (c ∷ s) =
    let rest = replace_from pattern value (length pattern - 1) s in
    let more = replace_from pattern value 0 s in
    elim (strip_prefix pattern (c ∷ s)) [ none ↦ c ∷ more | some t ↦ value ++ rest ]

pub data Substituted : Type 0 where
  ok : Text → Substituted
  unresolved : Text → Text → Substituted

module _ {V : Type 0} (run : Run V) where
  unfoldable pub knob_text : V → Text
  knob_text v = knob_print (run.as_integer v) (run.as_str v)

  abbrev pub map_knob_text : Option V → Option Text
  map_knob_text none = none
  map_knob_text (some v) = some (knob_text v)

  pub resolve : Placeholder → Option Text
  resolve broker_internal = some run.ep.bootstrap_internal
  resolve registry_internal = some run.ep.registry_internal
  resolve clickhouse_internal = some run.ep.ch_internal
  resolve topic = some (topic_of run.mode run.topic)
  resolve group_id = some run.group_id
  resolve clickhouse_password = some run.ep.ch_password
  resolve offset_reset = some (reset_of run.mode)
  resolve (knob k) = map_knob_text (get k (knobs_for run.overrides run.declared))
  resolve (container c) = get c run.containers

  -- `inner.and_then(Placeholder::parse)` and the match on it.
  pub resolve_parsed : Option Placeholder → Option Text
  resolve_parsed none = none
  resolve_parsed (some p) = resolve p

  pub resolve_token : Option Text → Option Text
  unfolding resolve_parsed
  resolve_token none = none
  resolve_token (some inner) = resolve_parsed (parse inner)

  abbrev replaced : Text → Text → Option Text → Text
  replaced out token none = out
  replaced out token (some v) = replace_from token v 0 out

  pub substitute_tokens : Text → List Token → Text
  substitute_tokens out [] = out
  substitute_tokens out ((token, inner) ∷ rest) =
      substitute_tokens (replaced out token (resolve_token inner)) rest

  pub checked : Text → Text → Substituted
  checked raw out = if contains (codes "{{") out then unresolved raw out else ok out

  pub substitute : Text → Substituted
  unfolding checked
  substitute raw = checked raw (substitute_tokens raw (placeholder_tokens raw))
