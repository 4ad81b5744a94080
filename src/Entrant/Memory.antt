-- ===== src/Entrant/Memory.antt =====
-- `parse_memory` of harness/src/entrant.rs: a declared memory limit as bytes.
pub mod Print
mod Examples
use spate_benchmark.Prelude.{
  ℕ, ◌*◌, ◌^◌, Option, none, some, List, [], ◌∷◌, ◌||◌, ◌==◌, ltb, Text, if◌then◌else◌,
}
use spate_benchmark.Prelude.Strings.{trim, parse_u64}

-- `s.chars().last()`
pub last : Text → Option ℕ
last [] = none
last (c ∷ []) = some c
last (c ∷ d ∷ s) = last (d ∷ s)

-- `&s[..s.len() - 1]`, where the last character is one byte
pub without_last : Text → Text
without_last [] = []
without_last (c ∷ []) = []
without_last (c ∷ d ∷ s) = c ∷ without_last (d ∷ s)

-- `n.checked_mul(mult)` on `u64`
pub checked_mul : ℕ → ℕ → Option ℕ
checked_mul n mult = if ltb (n * mult) (2 ^ 64) then some (n * mult) else none

abbrev times : ℕ → Option ℕ → Option ℕ
times mult none = none
times mult (some n) = checked_mul n mult

count_of : Text → ℕ → Option ℕ
count_of digits mult = times mult (parse_u64 (trim digits))

-- The match on the last character.
suffixed : Text → ℕ → Option ℕ
unfolding count_of
suffixed s c =
    if c == b'g' || c == b'G'
    then count_of (without_last s) (1024 * 1024 * 1024)
    else if c == b'm' || c == b'M'
    then count_of (without_last s) (1024 * 1024)
    else if c == b'k' || c == b'K'
    then count_of (without_last s) 1024
    else count_of s 1

memory_of : Text → Option ℕ → Option ℕ
memory_of s none = none
memory_of s (some c) = suffixed s c

unfoldable pub parse_memory : Text → Option ℕ
unfolding memory_of suffixed last without_last checked_mul
parse_memory s = memory_of (trim s) (last (trim s))
