-- ===== src/Entrant/Validate/Envelope.antt =====
-- `validate_envelope` and `validate_clickhouse` of harness/src/entrant.rs.
pub mod Plane
use spate_benchmark.Prelude.{
  ℕ, ◌+◌, ◌^◌, Bool, true, false, not, Option, none, some, List, [], ◌∷◌, ◌++◌, Text, codes,
  text_eq, if◌then◌else◌, any, filter, length, is_empty, ◌==◌, ◌||◌, ◌&&◌, ◌≡◌, ◌⊎◌, refl, inl, inr,
}
use spate_benchmark.Prelude.Strings.{trim}
use spate_benchmark.Selector.Split.{split}
use spate_benchmark.Ceiling.Float.{Float}
use spate_benchmark.Entrant.Descriptor.{is_data_plane, Container, Envelope, ClickhouseSpec}
use spate_benchmark.Entrant.Memory.{parse_memory}
use spate_benchmark.Entrant.Validate.Problems.{
  Problem, no_envelope, data_planes, cpus_total, memory_total, memory_unparseable, unpaired_sql,
  escapes_directory, sql_not_found, empty_table, padded_table, qualified_table,
}
use spate_benchmark.Entrant.Validate.Parts.{report_if, is_trimmed_empty}

-- What is read of floats beside the operations of `f64`.
pub record Cpus (F : Type 0) : Type 0 where
  pub parse : Text → Option F  -- `s.parse::<f64>().ok()`
  pub nan : F
  pub abs : F → F
  pub zero_sum : F  -- what `sum` of floats starts from

abbrev pub memory_or_zero : Option ℕ → ℕ
memory_or_zero none = 0
memory_or_zero (some m) = m

pub sum_memory : List Container → ℕ
sum_memory [] = 0
sum_memory (c ∷ cs) = memory_or_zero (parse_memory c.memory) + sum_memory cs

-- A memory that cannot be read counts as zero.
pub memory_or_zero_cases :
    (o : Option ℕ) → (o ≡ some (memory_or_zero o)) ⊎ ((memory_or_zero o ≡ 0) × (o ≡ none))
memory_or_zero_cases none = inr (refl, refl)
memory_or_zero_cases (some m) = inl refl

-- The containers of the data plane.
abbrev pub planes : List Container → List Container
planes = filter (λ c. is_data_plane c.role)

module _ (fl : Float) (cpus : Cpus fl.F) where
  abbrev add_cpus : Option fl.F → fl.F → fl.F
  add_cpus none total = total
  add_cpus (some x) total = fl.add total x

  -- `data.iter().filter_map(..).sum()`, after the sum so far
  pub sum_cpus : fl.F → List Container → fl.F
  sum_cpus total [] = total
  sum_cpus total (c ∷ cs) = sum_cpus (add_cpus (cpus.parse c.cpus) total) cs

  abbrev or_nan : Option fl.F → fl.F
  or_nan none = cpus.nan
  or_nan (some x) = x

  -- `f64::EPSILON`
  abbrev epsilon : fl.F
  epsilon = fl.decimal 1 (2 ^ 52)

  pub check_cpus : Text → fl.F → List (Problem fl.F)
  check_cpus declared sum =
      report_if (fl.lt epsilon (cpus.abs (fl.sub sum (or_nan (cpus.parse declared)))))
        (cpus_total sum declared)

  pub check_memory : Text → ℕ → Option ℕ → List (Problem fl.F)
  check_memory declared sum none = memory_unparseable declared ∷ []
  check_memory declared sum (some want) =
      report_if (not (want == sum)) (memory_total sum declared want)

  check_planes : Envelope → List Container → List (Problem fl.F)
  unfolding check_cpus check_memory sum_cpus sum_memory
  check_planes env ps =
      if not (length ps == 1)
      then data_planes (length ps) ∷ []
      else (check_cpus env.cpus (sum_cpus cpus.zero_sum ps)
          ++ check_memory env.memory (sum_memory ps) (parse_memory env.memory))

  unfoldable pub validate_envelope : Option Envelope → List (Problem fl.F)
  unfolding check_planes
  validate_envelope none = no_envelope ∷ []
  validate_envelope (some env) = check_planes env (planes env.containers)

abbrev starts_with_slash : Text → Bool
starts_with_slash [] = false
starts_with_slash (c ∷ s) = c == b'/'

-- An absolute path, or one with a component `..`.
pub escapes : Text → Bool
escapes rel = starts_with_slash rel || any (λ c. text_eq c (codes "..")) (split b'/' rel)

module _ {F : Type 0} (is_file : Text → Bool) where
  pub check_sql : Text → List (Problem F)
  unfolding escapes
  check_sql rel =
      if escapes rel
      then escapes_directory rel ∷ []
      else if not (is_file rel)
      then sql_not_found rel ∷ []
      else []

  -- The match on the two paths, trimmed.
  pub check_pair : Text → Text → List (Problem F)
  unfolding check_sql
  check_pair [] [] = []
  check_pair (c ∷ sql) [] = unpaired_sql (c ∷ sql) ∷ []
  check_pair [] (c ∷ sql) = unpaired_sql (c ∷ sql) ∷ []
  check_pair (c ∷ sql) (d ∷ teardown) = check_sql (c ∷ sql) ++ check_sql (d ∷ teardown)

  pub check_table : Text → List (Problem F)
  check_table t =
      (if is_trimmed_empty t
        then empty_table ∷ []
        else if not (text_eq (trim t) t)
        then padded_table t ∷ []
        else [])
      ++ report_if (any (λ c. c == b'.') t) (qualified_table t)

  pub check_tables : List Text → List (Problem F)
  unfolding check_table
  check_tables [] = []
  check_tables (t ∷ ts) = check_table t ++ check_tables ts

  unfoldable pub validate_clickhouse : Option ClickhouseSpec → List (Problem F)
  unfolding check_pair check_tables
  validate_clickhouse none = []
  validate_clickhouse (some ch) =
      check_pair (trim ch.arm_sql) (trim ch.arm_teardown_sql) ++ check_tables ch.attribution_tables
