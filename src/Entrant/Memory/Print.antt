-- ===== src/Entrant/Memory/Print.antt =====
-- A memory limit as a number and a unit.
use spate_benchmark.Prelude.{
  ℕ, ◌*◌, ◌^◌, ◌<◌, none, some, [], ◌∷◌, ◌++◌, Text, ltb, if◌then◌else◌, All, All-map, All-append,
  ◌≡◌, ◌⊎◌, refl, ap, ◌∙◌, arith,
}
use spate_benchmark.Prelude.Strings.{is_whitespace, parse_u64}
use spate_benchmark.Prelude.Strings.Trimmed.{IsSolid, trim_of_solid}
use spate_benchmark.Corpus.Decimal.{decimal}
use spate_benchmark.Corpus.Decimal.Parsed.{IsDigit, decimal-IsNumber, parse_u64-decimal}
use spate_benchmark.Entrant.Memory.{
  last, without_last, checked_mul, times, count_of, suffixed, memory_of, parse_memory,
}

digit-IsSolid : (c : ℕ) → IsDigit c → IsSolid c
unfolding is_whitespace
digit-IsSolid c (a, b) = ground arith

last-append : (s : Text) (c : ℕ) → last (s ++ c ∷ []) ≡ some c
unfolding last
last-append [] c = refl
last-append (d ∷ []) c = refl
last-append (d ∷ e ∷ s) c = last-append (e ∷ s) c

without_last-append : (s : Text) (c : ℕ) → without_last (s ++ c ∷ []) ≡ s
unfolding without_last
without_last-append [] c = refl
without_last-append (d ∷ []) c = refl
without_last-append (d ∷ e ∷ s) c = ap (λ t. d ∷ t) (without_last-append (e ∷ s) c)

decimal-IsSolid : (n : ℕ) → All IsSolid (decimal n)
decimal-IsSolid n = All-map digit-IsSolid (decimal n) (decimal-IsNumber n).all_digits

count_of-decimal : (n mult : ℕ) → n < 2 ^ 64 → count_of (decimal n) mult ≡ checked_mul n mult
unfolding count_of
count_of-decimal n mult h =
    ap (λ s. times mult (parse_u64 s)) (trim_of_solid (decimal n) (decimal-IsSolid n))
    ∙ ap (times mult) (parse_u64-decimal n h)

-- The letter of a unit, and its bytes.
abbrev pub HasUnit : ℕ → ℕ → Type 0
HasUnit c mult =
    (((c ≡ b'g') ⊎ (c ≡ b'G')) × (mult ≡ 1073741824))
    ⊎ (((c ≡ b'm') ⊎ (c ≡ b'M')) × (mult ≡ 1048576))
    ⊎ (((c ≡ b'k') ⊎ (c ≡ b'K')) × (mult ≡ 1024))

unit-IsSolid : (c mult : ℕ) → HasUnit c mult → IsSolid c
unfolding is_whitespace
unit-IsSolid c mult h = ground arith

suffixed-unit :
    (s : Text) (c mult : ℕ) → HasUnit c mult → suffixed s c ≡ count_of (without_last s) mult
unfolding suffixed
suffixed-unit s c mult h = ground arith

-- A number of at most 64 bits before the letter of a unit is read as that many bytes, or refused where
-- these do not fit into 64 bits.
pub parse_memory-decimal :
    (n c mult : ℕ)
    → n < 2 ^ 64
    → HasUnit c mult
    → parse_memory (decimal n ++ c ∷ [])
      ≡ (if ltb (n * mult) (2 ^ 64) then some (n * mult) else none)
unfolding parse_memory memory_of checked_mul
parse_memory-decimal n c mult h u =
    let s = decimal n ++ c ∷ [] in
    let solid =
      All-append IsSolid (decimal n) (c ∷ []) (decimal-IsSolid n) (unit-IsSolid c mult u, tt) in
    ap (λ t. memory_of t (last t)) (trim_of_solid s solid)
    ∙ ap (memory_of s) (last-append (decimal n) c)
    ∙ suffixed-unit s c mult u
    ∙ ap (λ t. count_of t mult) (without_last-append (decimal n) c)
    ∙ count_of-decimal n mult h
