-- ===== src/Ceiling/Encoding/LowCardinality/Examples.antt =====
-- Runs of the dictionary.
use spate_benchmark.Prelude.{List, [], ◌∷◌, ◌≡◌, refl, arith, codes, text_eq}
use spate_benchmark.Ceiling.Encoding.Varint.{Bytes}
use spate_benchmark.Ceiling.Encoding.Reader.{Writes}
use spate_benchmark.Ceiling.Encoding.LowCardinality.{
  new, push, push_found, position, push_all, write,
}
use spate_benchmark.Ceiling.Encoding.LowCardinality.Group.{get_column, get_column-write}

abbrev regions : List Bytes
regions = codes "eu" ∷ codes "us" ∷ [] ∷ codes "eu" ∷ []

regions_indexes : (push_all new regions).indexes ≡ 1 ∷ 2 ∷ 0 ∷ 1 ∷ []
unfolding push_all push push_found position new text_eq
regions_indexes = refl

get_column-write_example : Writes get_column regions (write (push_all new regions))
get_column-write_example =
    get_column-write regions (omega arith) (omega arith)
      (omega arith, (omega arith, (omega arith, (omega arith, tt))))
