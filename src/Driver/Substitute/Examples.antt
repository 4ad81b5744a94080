-- ===== src/Driver/Substitute/Examples.antt =====
-- Values of a container's environment.
use spate_benchmark.Prelude.{none, some, [], ◌∷◌, codes, text_eq, List, All, arith, ◌≡◌, refl}
use spate_benchmark.Prelude.Int.{ℤ, pos}
use spate_benchmark.Prelude.Strings.{strip_prefix, contains}
use spate_benchmark.Corpus.Decimal.{decimal}
use spate_benchmark.Entrant.Placeholders.{Placeholder, parse, outside, placeholder_tokens, knob}
use spate_benchmark.Selector.Split.{Lacks-all}
use spate_benchmark.Driver.Windows.{sustained_topic}
use spate_benchmark.Driver.Overrides.{knobs_for}
use spate_benchmark.Driver.Substitute.{
  Run, sustained, ok, unresolved, replace_from, resolve, resolve_token, substitute_tokens,
  substitute, knob_text,
}
use spate_benchmark.Driver.Substitute.Filled.{Resolves, fill, substitute-fill}
use spate_benchmark.Entrant.Placeholders.Template.{Part, char, hole, print, holes, IsTemplate}

abbrev run : Run ℤ
run = record {
  as_integer = some;
  as_str = λ _. none;
  declared = (codes "threads", pos 4) ∷ [];
  ep = record {
    bootstrap_internal = codes "kafka:9092";
    registry_internal = codes "http://registry:8081";
    ch_internal = codes "http://clickhouse:8123";
    ch_password = codes "secret";
  };
  mode = sustained 60000 300;
  topic = codes "events";
  overrides = (codes "threads", pos 16) ∷ [];
  group_id = codes "comparison-1";
  containers = (codes "jobmanager", codes "spate-bench-sut-jobmanager") ∷ [];
}

two_tokens :
    substitute run (codes "{{topic}}@{{container:jobmanager}}")
    ≡ ok (codes "events-sustained@spate-bench-sut-jobmanager")
unfolding substitute substitute_tokens resolve_token resolve parse placeholder_tokens outside
    replace_from contains strip_prefix text_eq sustained_topic
two_tokens = refl

misspelt :
    substitute run (codes "{{topics}}") ≡ unresolved (codes "{{topics}}") (codes "{{topics}}")
unfolding substitute substitute_tokens resolve_token resolve parse placeholder_tokens outside
    replace_from contains strip_prefix text_eq
misspelt = refl

threads : resolve run (knob (codes "threads")) ≡ some (codes "16")
unfolding resolve knob_text knobs_for text_eq decimal
threads = refl

named : parse (codes "knob:threads") ≡ some (knob (codes "threads"))
unfolding parse text_eq strip_prefix
named = refl

abbrev template : List Part
template =
    hole (codes "topic")
    ∷ char b'@'
    ∷ hole (codes "knob:threads")
    ∷ char b'}'
    ∷ hole (codes "topic")
    ∷ []

topic_known : parse (codes "topic") ≡ some Placeholder.topic
unfolding parse text_eq
topic_known = refl

topic_resolves : resolve_token run (some (codes "topic")) ≡ some (codes "events-sustained")
unfolding resolve_token resolve parse text_eq sustained_topic
topic_resolves = refl

knob_resolves : resolve_token run (some (codes "knob:threads")) ≡ some (codes "16")
unfolding resolve_token resolve parse text_eq strip_prefix knob_text knobs_for decimal
knob_resolves = refl

template-IsTemplate : IsTemplate template
template-IsTemplate = omega arith

holes-Resolve : All (Resolves run) (holes template)
holes-Resolve =
    let topic : Resolves run (codes "topic") =
      (codes "events-sustained", topic_resolves, Lacks-all b'{' (codes "events-sustained") refl) in
    (topic, ((codes "16", knob_resolves, Lacks-all b'{' (codes "16") refl), (topic, tt)))

substitute-fill_example : substitute run (print template) ≡ ok (fill run template)
substitute-fill_example = substitute-fill run template template-IsTemplate holes-Resolve
