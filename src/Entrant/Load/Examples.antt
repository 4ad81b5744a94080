-- ===== src/Entrant/Load/Examples.antt =====
-- Runs of `load_all`.
use spate_benchmark.Prelude.{arith, ℕ, ◌≡◌, ◌↔◌, refl, some, List, [], ◌∷◌, map, codes}
use spate_benchmark.Prelude.Int.{ℤ, pos}
use spate_benchmark.Entrant.Descriptor.{Entrant}
use spate_benchmark.Entrant.Validate.Sample.{sample, reads}
use spate_benchmark.Entrant.Load.{
  missing, parsed, err, no_descriptor, same_order, close_hues, cross_check, load_all,
}
use spate_benchmark.Entrant.Load.Crossed.{Pairwise, Differ, hues}
use spate_benchmark.Entrant.Load.Accepted.{OkIs, AllValid, AngleApart, load_all-ok}

abbrev hued : ℕ → ℤ → Entrant ℤ
hued h o = record sample { spec = record sample.spec { display = record { order = o; hue = h } } }

clashes :
    cross_check {F = ℕ} (hued 30 (pos 1) ∷ hued 90 (pos 2) ∷ hued 11 (pos 1) ∷ [])
    ≡ same_order (pos 1) (codes "flow") (codes "flow")
      ∷ close_hues 11 (codes "flow") 30 (codes "flow")
      ∷ []
unfolding cross_check
clashes = refl

-- The angles 355 and 5 are ten degrees apart, and are not reported.
around_zero : cross_check {F = ℕ} (hued 355 (pos 1) ∷ hued 5 (pos 2) ∷ []) ≡ []
unfolding cross_check
around_zero = refl

no_file :
    load_all reads (some (missing (codes "entrants/x") ∷ [])) []
    ≡ err (no_descriptor (codes "entrants/x") ∷ [])
unfolding load_all
no_file = refl

abbrev two_entrants : List (Entrant ℤ)
two_entrants = hued 30 (pos 1) ∷ hued 340 (pos 2) ∷ []

load_all-ok_example :
    OkIs reads (load_all reads (some (map parsed two_entrants)) []) two_entrants ↔ (
      (map parsed two_entrants ≡ map parsed two_entrants)
      × AllValid reads two_entrants
      × Pairwise Differ two_entrants
      × Pairwise AngleApart (hues two_entrants))
load_all-ok_example =
    load_all-ok reads (map parsed two_entrants) [] two_entrants (omega arith, (omega arith, tt))
