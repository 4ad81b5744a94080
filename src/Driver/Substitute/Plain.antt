-- ===== src/Driver/Substitute/Plain.antt =====
-- What the placeholders of a validated environment stand for.
use spate_benchmark.Prelude.{
  true, some, List, [], ◌∷◌, Text, codes, text_eq, any, ◌≡◌, refl, ap, ◌∙◌, arith, All, All-append,
}
use spate_benchmark.Selector.Split.{Lacks}
use spate_benchmark.Entrant.Descriptor.{Container, Variant}
use spate_benchmark.Entrant.Placeholders.{
  Placeholder, broker_internal, registry_internal, clickhouse_internal, topic, group_id,
  offset_reset, clickhouse_password, knob, container,
}
use spate_benchmark.Entrant.Validate.Env.Known.{Names, IsKnown}
use spate_benchmark.Driver.Windows.{sustained_topic}
use spate_benchmark.Driver.Overrides.{insert_all, knobs_for}
use spate_benchmark.Driver.Overrides.Kept.{has_key, get-has, insert_all-All, insert_all-keeps}
use spate_benchmark.Driver.Substitute.{
  Mode, drain, sustained, reset_of, Run, resolve, resolve_parsed, resolve_token, topic_of,
  knob_text, map_knob_text,
}
use spate_benchmark.Driver.Substitute.Filled.{Resolves}

-- No value that a run substitutes holds an opening brace.
pub record IsPlain {V : Type 0} (run : Run V) : Type 0 where
  pub bootstrap : Lacks b'{' run.ep.bootstrap_internal
  pub registry : Lacks b'{' run.ep.registry_internal
  pub clickhouse : Lacks b'{' run.ep.ch_internal
  pub password : Lacks b'{' run.ep.ch_password
  pub topic_name : Lacks b'{' run.topic
  pub group : Lacks b'{' run.group_id
  pub containers : All (λ kv. Lacks b'{' (kv.1)) run.containers
  pub declared : All (λ kv. Lacks b'{' (knob_text run (kv.1))) run.declared
  pub overridden : All (λ kv. Lacks b'{' (knob_text run (kv.1))) run.overrides

topic_of-Lacks : (m : Mode) (base : Text) → Lacks b'{' base → Lacks b'{' (topic_of m base)
unfolding sustained_topic
topic_of-Lacks drain base h = h
topic_of-Lacks (sustained r w) base h = All-append _ base (codes "-sustained") h (omega arith)

reset_of-Lacks : (m : Mode) → Lacks b'{' (reset_of m)
unfolding reset_of
reset_of-Lacks drain = omega arith
reset_of-Lacks (sustained r w) = omega arith

module _ {V : Type 0} (run : Run V) (plain : IsPlain run) where
  -- The value of a placeholder, without an opening brace.
  abbrev Gives : Placeholder → Type 0
  Gives p = (t : Text) × (resolve run p ≡ some t) × Lacks b'{' t

  knob-Gives : (k : Text) → has_key k run.declared ≡ true → Gives (knob k)
  unfolding resolve knobs_for
  knob-Gives k h =
      let plain_knob = λ (kv : Text × V). Lacks b'{' (knob_text run (kv.1)) in
      let kept =
        insert_all-All plain_knob run.declared run.overrides plain.declared plain.overridden in
      let there = insert_all-keeps k run.declared run.overrides h in
      let (w, g, q) = get-has plain_knob k (insert_all run.declared run.overrides) kept there in
      (knob_text run w, ap (map_knob_text run) g, q)

  module _ (cs : List Container) (v : Variant V) (declares : run.declared ≡ v.knobs)
      (starts : (c : Text)
        → any (λ ct. text_eq ct.name c) cs ≡ true
        → has_key c run.containers ≡ true) where
    Names-Gives : (p : Placeholder) → Names cs (v ∷ []) p → Gives p
    unfolding resolve
    Names-Gives (knob k) (h, _) = knob-Gives k (ap (has_key k) declares ∙ h)
    Names-Gives (container c) h =
        get-has (λ kv. Lacks b'{' (kv.1)) c run.containers plain.containers (starts c h)
    Names-Gives broker_internal _ = (_, refl, plain.bootstrap)
    Names-Gives registry_internal _ = (_, refl, plain.registry)
    Names-Gives clickhouse_internal _ = (_, refl, plain.clickhouse)
    Names-Gives topic _ = (_, refl, topic_of-Lacks run.mode run.topic plain.topic_name)
    Names-Gives group_id _ = (_, refl, plain.group)
    Names-Gives offset_reset _ = (_, refl, reset_of-Lacks run.mode)
    Names-Gives clickhouse_password _ = (_, refl, plain.password)

    -- A known placeholder has a value.
    pub known-Resolves : (inner : Text) → IsKnown cs (v ∷ []) inner → Resolves run inner
    unfolding resolve_token resolve_parsed
    known-Resolves inner (p, e, named) =
        let (t, g, q) = Names-Gives p named in (t, ap (resolve_parsed run) e ∙ g, q)
