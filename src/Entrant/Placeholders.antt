-- ===== src/Entrant/Placeholders.antt =====
-- The placeholders of a descriptor's environment: `Placeholder` and `placeholder_tokens` of
-- harness/src/entrant.rs.
pub mod Template
pub mod Tokens
use spate_benchmark.Prelude.{
  ℕ, Option, none, some, List, [], ◌∷◌, ◌++◌, Text, codes, text_eq, ◌&&◌, ◌==◌, if◌then◌else◌,
}
use spate_benchmark.Prelude.Strings.{strip_prefix}

pub data Placeholder : Type 0 where
  broker_internal : Placeholder
  registry_internal : Placeholder
  clickhouse_internal : Placeholder
  topic : Placeholder
  group_id : Placeholder
  offset_reset : Placeholder
  clickhouse_password : Placeholder
  knob : Text → Placeholder
  container : Text → Placeholder

prefixed : Option Text → Option Text → Option Placeholder
prefixed (some k) c = some (knob k)
prefixed none (some c) = some (container c)
prefixed none none = none

-- `Placeholder::parse`
unfoldable pub parse : Text → Option Placeholder
unfolding prefixed
parse inner =
    if text_eq inner (codes "broker_internal")
    then some broker_internal
    else if text_eq inner (codes "registry_internal")
    then some registry_internal
    else if text_eq inner (codes "clickhouse_internal")
    then some clickhouse_internal
    else if text_eq inner (codes "clickhouse_password")
    then some clickhouse_password
    else if text_eq inner (codes "topic")
    then some topic
    else if text_eq inner (codes "group_id")
    then some group_id
    else if text_eq inner (codes "offset_reset")
    then some offset_reset
    else prefixed (strip_prefix (codes "knob:") inner) (strip_prefix (codes "container:") inner)

-- A token as it is written, and the text between its braces; `none` where it never closes.
abbrev pub Token : Type 0
Token = Text × Option Text

abbrev pub opened : Text → Text
opened inner = b'{' ∷ b'{' ∷ inner

abbrev pub closed : Text → Text
closed inner = opened inner ++ b'}' ∷ b'}' ∷ []

-- The loop of `placeholder_tokens`, which looks for two opening braces, and the search of its body for
-- two closing ones after the text so far.
unfoldable mutual
  pub outside : Text → List Token
  outside [] = []
  outside (c ∷ []) = []
  outside (c ∷ d ∷ s) =
      let found = inside [] s in
      let more = outside (d ∷ s) in if c == b'{' && d == b'{' then found else more

  pub inside : Text → Text → List Token
  inside inner [] = (opened inner, none) ∷ []
  inside inner (c ∷ []) = (opened (inner ++ c ∷ []), none) ∷ []
  inside inner (c ∷ d ∷ s) =
      let rest = outside s in
      let more = inside (inner ++ c ∷ []) (d ∷ s) in
      if c == b'}' && d == b'}' then (closed inner, some inner) ∷ rest else more

unfoldable pub placeholder_tokens : Text → List Token
placeholder_tokens raw = outside raw
