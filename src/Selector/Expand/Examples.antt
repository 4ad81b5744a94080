-- ===== src/Selector/Expand/Examples.antt =====
-- Runs of `expand` over two entrants, one of them not runnable.
use spate_benchmark.Prelude.{
  true, false, none, some, List, [], ◌∷◌, Text, codes, ◌≡◌, refl, All, text_eq,
}
use spate_benchmark.Prelude.Int.{pos}
use spate_benchmark.Entrant.Descriptor.{Entrant, Variant, Status, Approach, is_runnable}
use spate_benchmark.Selector.{Selector}
use spate_benchmark.Selector.Parse.{star}
use spate_benchmark.Selector.Expand.{
  Arm, arms, refused, matched_nothing, expand, expand_from, visit_entrants, visit_entrant,
  visit_variants, visit_variant, names_unknown, matches_entrant, matches_variant,
}
use spate_benchmark.Selector.Expand.Selected.{Distinct, IsAsked, expand-Distinct, expand-IsAsked}
use spate_benchmark.Selector.Expand.Complete.{Covered, expand_covers}

abbrev variant_named : Text → Variant Unit
variant_named i = record {
  id = i;
  label = i;
  approach = Approach.realistic;
  unshipped = [];
  default = true;
  env = [];
  knobs = [];
  reports = [];
}

abbrev entrant_named : Text → Status → Entrant Unit
entrant_named i status = record {
  dir_name = i;
  spec = record {
    schema = 1;
    entrant = record {
      id = i;
      licence = codes "MIT";
      language = codes "rust" ∷ [];
      status = status;
    };
    display = record { order = pos 0; hue = 0 };
    version = none;
    build = none;
    envelope = none;
    guarantees = none;
    env = [];
    variants = variant_named (codes "native") ∷ variant_named (codes "rowbinary") ∷ [];
    constraints = [];
    deviations = [];
    clickhouse = none;
    planned = false;
  };
}

abbrev spate : Entrant Unit
spate = entrant_named (codes "spate") Status.active

abbrev entrants : List (Entrant Unit)
entrants = spate ∷ entrant_named (codes "arroyo") Status.planned ∷ []

abbrev everything : Selector
everything = record { entrant = star; variant = star; image = none }

abbrev one_variant : Selector
one_variant = record { entrant = codes "spate"; variant = codes "native"; image = some (codes "t") }

abbrev both_arms : List (Arm Unit)
both_arms =
    record { entrant = spate; variant = variant_named (codes "native"); image = none }
    ∷ record { entrant = spate; variant = variant_named (codes "rowbinary"); image = none }
    ∷ []

overlap : expand entrants (everything ∷ one_variant ∷ []) ≡ arms both_arms
unfolding expand expand_from visit_entrants visit_entrant visit_variants visit_variant names_unknown
    matches_entrant matches_variant is_runnable text_eq
overlap = refl

typo :
    expand entrants (record { entrant = codes "spate"; variant = codes "natve"; image = none } ∷ [])
    ≡ refused (
        matched_nothing (record { entrant = codes "spate"; variant = codes "natve"; image = none }))
unfolding expand expand_from visit_entrants visit_entrant visit_variants visit_variant names_unknown
    matches_entrant matches_variant is_runnable text_eq
typo = refl

expand-Distinct_example : Distinct both_arms
expand-Distinct_example = expand-Distinct entrants (everything ∷ one_variant ∷ []) overlap

expand-IsAsked_example : All (IsAsked (everything ∷ one_variant ∷ [])) both_arms
expand-IsAsked_example = expand-IsAsked entrants (everything ∷ one_variant ∷ []) overlap

expand_covers_example :
    All (λ sel. All (Covered sel both_arms) entrants) (everything ∷ one_variant ∷ [])
expand_covers_example = expand_covers entrants (everything ∷ one_variant ∷ []) overlap
