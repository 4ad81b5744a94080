-- ===== src/Corpus/Decimal.antt =====
-- `{}` of a `u64`: the language's decimal print, at most twenty digits.
pub mod Parsed
use spate_benchmark.Prelude.{ℕ, zero, suc, ◌+◌, ◌/◌, ◌%◌, [], ◌∷◌, Text, ◌==◌, if◌then◌else◌}

digits : ℕ → ℕ → Text → Text
digits zero n out = out
digits (suc fuel) n out =
    let rest = digits fuel (n / 10) ((b'0' + n % 10) ∷ out) in
    if n / 10 == 0 then (b'0' + n % 10) ∷ out else rest

unfoldable pub decimal : ℕ → Text
unfolding digits
decimal n = digits 20 n []
