-- ===== src/Ceiling/Format.antt =====
-- The insert formats of harness/src/ceiling.rs and the `--only` restriction.
mod Examples
use spate_benchmark.Prelude.{
  ℕ, Bool, true, false, not, Option, none, some, List, [], ◌∷◌, ◌++◌, Text, codes, ◌≡◌, ◌↔◌, refl,
  arith, any, find, filter, is_empty, length, ◌==◌, if◌then◌else◌, text_eq, All, eq_of_text_eq,
  text_eq_refl, find_holds, filter-congr, any-append, ap, sym, subst, Option-cases, inl, inr, ◌∙◌,
  Bool-cases, ◌||◌,
}

pub data Format : Type 0 where
  native row_binary row_binary_with_names_and_types json_each_row arrow_stream : Format

abbrev pub formats : List Format
formats =
    Format.native ∷ Format.row_binary ∷ Format.row_binary_with_names_and_types
    ∷ Format.json_each_row ∷ Format.arrow_stream ∷ []

unfoldable pub all_combinations : List Format
all_combinations = formats

unfoldable pub wire_format : Format → Text
wire_format Format.native = codes "native"
wire_format Format.row_binary = codes "rowbinary"
wire_format Format.row_binary_with_names_and_types = codes "rowbinary_nt"
wire_format Format.json_each_row = codes "json_each_row"
wire_format Format.arrow_stream = codes "arrow_stream"

pub clickhouse_name : Format → Text
clickhouse_name Format.native = codes "Native"
clickhouse_name Format.row_binary = codes "RowBinary"
clickhouse_name Format.row_binary_with_names_and_types = codes "RowBinaryWithNamesAndTypes"
clickhouse_name Format.json_each_row = codes "JSONEachRow"
clickhouse_name Format.arrow_stream = codes "ArrowStream"

unfoldable pub parse : Text → Option Format
parse s = find (λ f. text_eq (wire_format f) s) formats

-- `a == b` on the derived `PartialEq`
unfoldable pub same : Format → Format → Bool
same Format.native Format.native = true
same Format.row_binary Format.row_binary = true
same Format.row_binary_with_names_and_types Format.row_binary_with_names_and_types = true
same Format.json_each_row Format.json_each_row = true
same Format.arrow_stream Format.arrow_stream = true
same _ _ = false

-- The text of the refusal is the spec that names no format of this rig.
pub data Selection : Type 0 where
  chosen : List Format → Selection
  unknown : Text → Selection

choose : List Format → Option Format → Option (List Format)
choose fs none = none
choose fs (some f) = some (if any (same f) fs then fs else fs ++ f ∷ [])

collect : List Format → List Text → Selection
collect fs [] = chosen (filter (λ f. any (same f) fs) all_combinations)
collect fs (spec ∷ specs) = elim (choose fs (parse spec)) [
  | none ↦ unknown spec
  | some fs' ↦ collect fs' specs
]

pub select_combinations : List Text → Selection
unfolding collect choose
select_combinations [] = chosen all_combinations
select_combinations (spec ∷ specs) = collect [] (spec ∷ specs)

-- Each format is read back from its wire name.
pub parse-wire_format : (f : Format) → parse (wire_format f) ≡ some f
unfolding parse wire_format text_eq
parse-wire_format Format.native = refl
parse-wire_format Format.row_binary = refl
parse-wire_format _ = refl

-- What `parse` returns has the text as its wire name.
pub wire_format-parse : (s : Text) {f : Format} → parse s ≡ some f → wire_format f ≡ s
unfolding parse
wire_format-parse s {f} h =
    eq_of_text_eq (wire_format f) s (find_holds (λ g. text_eq (wire_format g) s) formats f h)

names : Text → Format → Bool
names spec f = text_eq (wire_format f) spec

same-names : (f g : Format) → same f g ≡ names (wire_format g) f
unfolding same names wire_format text_eq
same-names Format.native g = ground arith
same-names _ g = ground arith

eq_of_same : (f g : Format) → same f g ≡ true → f ≡ g
unfolding same
eq_of_same Format.native g h = ground arith
eq_of_same _ g h = ground arith

names-parse :
    (spec : Text) {g : Format} (f : Format) → parse spec ≡ some g → names spec f ≡ same f g
names-parse spec {g} f h = rw (same-names f g, wire_format-parse spec h) refl

-- What has been chosen after one more spec.
chosen-names :
    (fs : List Format) (spec : Text) {g : Format} (f : Format)
    → parse spec ≡ some g
    → any (same f) (if any (same g) fs then fs else fs ++ g ∷ [])
      ≡ (any (same f) fs || names spec f)
chosen-names fs spec {g} f h = rw (names-parse spec f h) (elim (Bool-cases (any (same g) fs)) [
  | inl old ↦ rw old (elim (Bool-cases (same f g)) [
    | inl s ↦ rw (eq_of_same f g s) (ground arith)
    | inr d ↦ ground arith
  ])
  | inr new ↦ rw new (ground (arith, any-append (same f) fs (g ∷ [])))
])

selection : (xs ys : List Format) → chosen xs ≡ chosen ys → xs ≡ ys
selection xs ys h = cc

collect-names :
    (fs : List Format) (specs : List Text) {gs : List Format}
    → collect fs specs ≡ chosen gs
    → gs ≡ filter (λ f. any (same f) fs || any (λ spec. names spec f) specs) all_combinations
unfolding collect choose
collect-names fs [] {gs} h =
    sym (selection _ gs h) ∙ filter-congr _ _ all_combinations (λ f. ground arith)
collect-names fs (spec ∷ specs) {gs} h = elim (Option-cases (parse spec)) [
  | inl bad ↦ cc (rw (bad, collect) at h)
  | inr (g, e) ↦
      let fs' : List Format = if any (same g) fs then fs else fs ++ g ∷ [] in
      let rest : collect fs' specs ≡ chosen gs = (rw (e, collect) at h) in
      collect-names fs' specs rest
      ∙ filter-congr _ _ all_combinations (λ f. rw (chosen-names fs spec f e) (ground arith))
]

-- The formats that a restriction selects are exactly those that one of the specs names, in the
-- canonical order, whatever the order of the specs and however often one is named.
pub select_named :
    (spec : Text) (specs : List Text) {fs : List Format}
    → select_combinations (spec ∷ specs) ≡ chosen fs
    → fs ≡ filter (λ f. any (λ s. text_eq (wire_format f) s) (spec ∷ specs)) all_combinations
unfolding select_combinations names
select_named spec specs h = collect-names [] (spec ∷ specs) h

collect-unknown :
    (fs : List Format) (specs : List Text) {s : Text}
    → collect fs specs ≡ unknown s
    → (parse s ≡ none) × (any (text_eq s) specs ≡ true)
unfolding collect choose
collect-unknown fs [] h = cc
collect-unknown fs (spec ∷ specs) {s} h = elim (Option-cases (parse spec)) [
  | inl bad ↦
      let quoted : unknown spec ≡ unknown s = (rw (bad, collect) at h) in
      let e : spec ≡ s = cc in
      (subst (λ t. parse t ≡ none) e bad, ground (arith, text_eq_refl s, ap (text_eq s) e))
  | inr (g, e) ↦
      let fs' : List Format = if any (same g) fs then fs else fs ++ g ∷ [] in
      let rest : collect fs' specs ≡ unknown s = (rw (e, collect) at h) in
      let (none_named, later) = collect-unknown fs' specs rest in (none_named, ground arith)
]

-- A refusal quotes one of the specs, and that spec names no format.
pub select_unknown :
    (specs : List Text) {s : Text}
    → select_combinations specs ≡ unknown s
    → (parse s ≡ none) × (any (text_eq s) specs ≡ true)
unfolding select_combinations
select_unknown [] h = cc
select_unknown (spec ∷ specs) h = collect-unknown [] (spec ∷ specs) h
