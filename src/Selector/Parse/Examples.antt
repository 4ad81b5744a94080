-- ===== src/Selector/Parse/Examples.antt =====
-- Runs of the selector parser.
use spate_benchmark.Prelude.{some, codes, ◌≡◌, refl, arith}
use spate_benchmark.Selector.{Selector}
use spate_benchmark.Selector.Split.{split_once, split}
use spate_benchmark.Selector.Parse.{
  IsName, IsWellFormed, err, ok, parse, parse-IsWellFormed, parse-display, display, empty_component,
  empty_image, star,
}

abbrev flink : Selector
flink = record {
  entrant = codes "flink";
  variant = star;
  image = some (codes "spate-bench-flink:2.3.0");
}

parse-flink : parse (codes "flink@spate-bench-flink:2.3.0") ≡ ok flink
unfolding parse split_once split
parse-flink = refl

unexpanded_variable : parse (codes "spate::") ≡ err (empty_component (codes "spate::"))
unfolding parse split_once split
unexpanded_variable = refl

no_image : parse (codes "spate@") ≡ err (empty_image (codes "spate@"))
unfolding parse split_once split
no_image = refl

flink-IsWellFormed : IsWellFormed flink
flink-IsWellFormed = parse-IsWellFormed (codes "flink@spate-bench-flink:2.3.0") parse-flink

parse-display_example : parse (display flink) ≡ ok flink
parse-display_example = parse-display flink flink-IsWellFormed

a_name : IsName (codes "a")
a_name = record { nonempty = refl; no_colon = omega arith; no_at = omega arith }
