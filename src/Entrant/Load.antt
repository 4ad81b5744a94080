-- ===== src/Entrant/Load.antt =====
-- `load_all` and `cross_check` of harness/src/entrant.rs, over what is found in each directory, in the
-- order of their paths. An error is the data that its sentence shows.
pub mod Accepted
pub mod Crossed
mod Examples
use spate_benchmark.Prelude.{
  ℕ, ◌-◌, Bool, true, false, Option, none, some, List, [], ◌∷◌, ◌++◌, map, Text, ltb, ◌==◌, ◌||◌,
  ◌&&◌, if◌then◌else◌, is_empty,
}
use spate_benchmark.Prelude.Int.{ℤ, leb_ℤ}
use spate_benchmark.Driver.Overrides.{text_lt}
use spate_benchmark.Entrant.Descriptor.{Entrant, id}
use spate_benchmark.Entrant.Validate.{Reads, validate}
use spate_benchmark.Entrant.Validate.Problems.{Problem}
use spate_benchmark.Entrant.Validate.Parts.{report_if}

-- A directory: its descriptor, or why there is none.
pub data Found (V : Type 0) : Type 0 where
  missing : Text → Found V
  unreadable : Text → Text → Found V
  unparsable : Text → Text → Found V
  parsed : Entrant V → Found V

pub data LoadError (F : Type 0) : Type 0 where
  read_dir : Text → LoadError F
  no_descriptor : Text → LoadError F
  read_failed : Text → Text → LoadError F
  bad_toml : Text → Text → LoadError F
  invalid : Text × Problem F → LoadError F
  same_order : ℤ → Text → Text → LoadError F
  close_hues : ℕ → Text → ℕ → Text → LoadError F

pub data Loaded (F V : Type 0) : Type 0 where
  ok : List (Entrant V) → Loaded F V
  err : List (LoadError F) → Loaded F V

abbrev pub eq_ℤ : ℤ → ℤ → Bool
eq_ℤ a b = leb_ℤ a b && leb_ℤ b a

-- `orders.get(&order)`, the last insert first
pub last_of : ℤ → List (ℤ × Text) → Option Text
last_of order [] = none
last_of order ((o, name) ∷ rest) = if eq_ℤ o order then some name else last_of order rest

-- The order of pairs.
abbrev pub pair_lt : ℕ × Text → ℕ × Text → Bool
pair_lt (a, s) (b, t) = ltb a b || (a == b && text_lt s t)

pub insert : ℕ × Text → List (ℕ × Text) → List (ℕ × Text)
insert h [] = h ∷ []
insert h (k ∷ ks) = let more = insert h ks in if pair_lt k h then k ∷ more else h ∷ k ∷ ks

-- `hues.sort_unstable()`
pub sort : List (ℕ × Text) → List (ℕ × Text)
unfolding insert
sort [] = []
sort (h ∷ hs) = insert h (sort hs)

module _ {F : Type 0} where
  abbrev clash : ℤ → Option Text → Text → List (LoadError F)
  clash order none name = []
  clash order (some prev) name = same_order order prev name ∷ []

  -- `hues.windows(2)`
  pub check_gaps : List (ℕ × Text) → List (LoadError F)
  check_gaps [] = []
  check_gaps (h ∷ []) = []
  check_gaps ((a, s) ∷ (b, t) ∷ hs) =
      report_if (ltb (b - a) 20) (close_hues a s b t) ++ check_gaps ((b, t) ∷ hs)

module _ {F V : Type 0} where
  pub check_orders : List (ℤ × Text) → List (Entrant V) → List (LoadError F)
  unfolding last_of
  check_orders seen [] = []
  check_orders seen (e ∷ es) =
      clash e.spec.display.order (last_of e.spec.display.order seen) (id e)
      ++ check_orders ((e.spec.display.order, id e) ∷ seen) es

  pub cross_check : List (Entrant V) → List (LoadError F)
  unfolding check_orders check_gaps sort
  cross_check es =
      check_orders [] es ++ check_gaps (sort (map (λ e. (e.spec.display.hue, id e)) es))

module _ {V : Type 0} (reads : Reads V) where
  abbrev Error : Type 0
  Error = LoadError reads.fl.F

  -- `load_one`, and what it gives to the entrants and to the errors of the loop.
  pub errors_of : Found V → List Error
  errors_of (missing dir) = no_descriptor dir ∷ []
  errors_of (unreadable path why) = read_failed path why ∷ []
  errors_of (unparsable path why) = bad_toml path why ∷ []
  errors_of (parsed e) = map invalid (validate reads e)

  pub accepted : Found V → List (Entrant V)
  accepted (parsed e) = if is_empty (validate reads e) then e ∷ [] else []
  accepted _ = []

  pub errors_in : List (Found V) → List Error
  unfolding errors_of
  errors_in [] = []
  errors_in (f ∷ fs) = errors_of f ++ errors_in fs

  pub entrants_in : List (Found V) → List (Entrant V)
  unfolding accepted
  entrants_in [] = []
  entrants_in (f ∷ fs) = accepted f ++ entrants_in fs

  finish : List (Entrant V) → List Error → Loaded reads.fl.F V
  finish es [] = ok es
  finish es (x ∷ xs) = err (x ∷ xs)

  -- The directories that `read_dir` lists, or its error.
  pub load_all : Option (List (Found V)) → Text → Loaded reads.fl.F V
  unfolding finish errors_in entrants_in cross_check
  load_all none why = err (read_dir why ∷ [])
  load_all (some found) why =
      finish (entrants_in found) (errors_in found ++ cross_check (entrants_in found))
