-- ===== src/Entrant/Memory/Examples.antt =====
-- Tests of `parse_memory`.
use spate_benchmark.Prelude.{none, some, [], ◌∷◌, ◌++◌, codes, ◌≡◌, refl, arith, inl}
use spate_benchmark.Prelude.Strings.{
  trim, trim_end, trim_start, is_whitespace, parse_u64, parse_number, parse_digits,
}
use spate_benchmark.Corpus.Decimal.{decimal}
use spate_benchmark.Entrant.Memory.{parse_memory, checked_mul, without_last}
use spate_benchmark.Entrant.Memory.Print.{parse_memory-decimal}

parse_memory_kib : parse_memory (codes " 1048576k") ≡ some 1073741824
unfolding parse_memory without_last checked_mul trim trim_end trim_start is_whitespace parse_u64
    parse_number parse_digits
parse_memory_kib = refl

parse_memory_nothing : parse_memory (codes "g") ≡ none
unfolding parse_memory without_last checked_mul trim trim_end trim_start is_whitespace parse_u64
    parse_number parse_digits
parse_memory_nothing = refl

parse_memory-decimal_example : parse_memory (decimal 17179869184 ++ b'g' ∷ []) ≡ none
parse_memory-decimal_example =
    parse_memory-decimal 17179869184 b'g' 1073741824 (omega arith) (inl (inl refl, refl))
