-- ===== src/Entrant/Validate/Variants.antt =====
-- `validate_variants` of harness/src/entrant.rs.
pub mod Valid
use spate_benchmark.Prelude.{
  ℕ, ◌+◌, ◌-◌, Bool, true, false, not, Option, none, some, List, [], ◌∷◌, ◌++◌, Text, codes,
  text_eq, if◌then◌else◌, any, all, find, filter, length, is_empty, ◌==◌, leb, ◌||◌, ◌&&◌,
}
use spate_benchmark.Ceiling.Format.{Format, formats, wire_format}
use spate_benchmark.Entrant.Descriptor.{get, Approach, realistic, tuned, stripped, Variant}
use spate_benchmark.Entrant.Validate.Problems.{
  Problem, no_variants, duplicate_variant, variant_spelling, no_wire_format, near_miss,
  empty_unshipped, not_stripped, defaults_found, default_approach,
}
use spate_benchmark.Entrant.Validate.Parts.{report_if, is_trimmed_empty}

abbrev pub is_lower : ℕ → Bool
is_lower c = leb b'a' c && leb c b'z'

abbrev pub is_upper : ℕ → Bool
is_upper c = leb b'A' c && leb c b'Z'

abbrev pub is_digit : ℕ → Bool
is_digit c = leb b'0' c && leb c b'9'

-- Lowercase ascii, digits and hyphens.
abbrev pub is_id : Text → Bool
is_id = all (λ c. is_lower c || (is_digit c || c == b'-'))

abbrev to_ascii_lowercase : ℕ → ℕ
to_ascii_lowercase c = if is_upper c then c + 32 else c

unfoldable pub fold_wire_format : Text → Text
fold_wire_format [] = []
fold_wire_format (c ∷ s) =
    let rest = fold_wire_format s in
    if is_lower c || (is_upper c || is_digit c) then to_ascii_lowercase c ∷ rest else rest

abbrev pub is_realistic : Approach → Bool
is_realistic realistic = true
is_realistic _ = false

abbrev pub is_stripped : Approach → Bool
is_stripped stripped = true
is_stripped _ = false

module _ {F : Type 0} where
  pub check_near_misses : Text → Text → List Format → List (Problem F)
  check_near_misses variant declared [] = []
  check_near_misses variant declared (f ∷ fs) =
      report_if
        (not (text_eq declared (wire_format f))
          && text_eq (fold_wire_format declared) (fold_wire_format (wire_format f)))
        (near_miss variant declared (wire_format f))
      ++ check_near_misses variant declared fs

  pub check_wire_format : Text → Option Text → List (Problem F)
  unfolding check_near_misses
  check_wire_format variant none = no_wire_format variant ∷ []
  check_wire_format variant (some declared) = check_near_misses variant declared formats

  pub check_unshipped : Text → List Text → List (Problem F)
  check_unshipped variant [] = []
  check_unshipped variant (u ∷ us) =
      report_if (is_trimmed_empty u) (empty_unshipped variant) ++ check_unshipped variant us

module _ {F V : Type 0} where
  -- The rounds of the loop, after the ids seen.
  pub check_variants : List Text → List (Variant V) → List (Problem F)
  unfolding check_wire_format check_unshipped
  check_variants seen [] = []
  check_variants seen (v ∷ vs) =
      report_if (any (text_eq v.id) seen) (duplicate_variant v.id)
      ++ (report_if (not (is_id v.id)) (variant_spelling v.id)
          ++ (check_wire_format v.id (get (codes "wire_format") v.reports)
              ++ (check_unshipped v.id v.unshipped
                  ++ (report_if (not (is_empty v.unshipped) && not (is_stripped v.approach))
                        (not_stripped v.id v.unshipped v.approach)
                      ++ check_variants (v.id ∷ seen) vs))))

  pub check_default : Option (Variant V) → List (Problem F)
  check_default none = []
  check_default (some d) =
      report_if (not (is_realistic d.approach)) (default_approach d.id d.approach)

  unfoldable pub validate_variants : List (Variant V) → List (Problem F)
  unfolding check_variants check_default
  validate_variants [] = no_variants ∷ []
  validate_variants (v ∷ vs) =
      let found = length (filter (λ w. w.default) (v ∷ vs)) in
      check_variants [] (v ∷ vs)
      ++ (report_if (not (found == 1)) (defaults_found found)
          ++ check_default (find (λ w. w.default) (v ∷ vs)))
