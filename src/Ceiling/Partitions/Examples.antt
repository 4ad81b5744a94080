-- ===== src/Ceiling/Partitions/Examples.antt =====
-- Runs of the partition split.
use spate_benchmark.Prelude.{true, [], ◌∷◌, ◌≡◌, refl}
use spate_benchmark.Prelude.Int.{pos}
use spate_benchmark.Ceiling.Partitions.{partition_split, assigned, contains, split_contains}

five_over_two : partition_split 2 (pos 5) ≡ (0 ∷ 2 ∷ 4 ∷ []) ∷ (1 ∷ 3 ∷ []) ∷ []
unfolding partition_split
five_over_two = refl

split_contains_example : contains (assigned (partition_split 2 (pos 5)) 1) 3 ≡ true
split_contains_example = split_contains 2 (pos 5) 1 3
