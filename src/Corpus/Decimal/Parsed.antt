-- ===== src/Corpus/Decimal/Parsed.antt =====
-- A printed number is read back by the language's `parse::<u64>`.
use spate_benchmark.Prelude.{
  ℕ, zero, suc, ◌+◌, ◌-◌, ◌*◌, ◌/◌, ◌%◌, ◌^◌, ◌<◌, ◌≤◌, false, some, [], ◌∷◌, Text, ◌≡◌, refl,
  arith, All, ◌∙◌, ◌==◌, is_empty, Bool-cases, inl, inr,
}
use native.Mathlib.Omega.{pow_step}
use spate_benchmark.Prelude.Strings.{parse_digits, parse_number, parse_u64}
use spate_benchmark.Corpus.Decimal.{digits, decimal}

abbrev pub IsDigit : ℕ → Type 0
IsDigit c = (b'0' ≤ c) × (c ≤ b'9')

-- A number of at least one digit.
pub record IsNumber (s : Text) : Type 0 where
  pub nonempty : is_empty s ≡ false
  pub all_digits : All IsDigit s

digits-All : (fuel n : ℕ) (out : Text) → All IsDigit out → All IsDigit (digits fuel n out)
unfolding digits
digits-All zero n out h = h
digits-All (suc fuel) n out h =
    let d : IsDigit (b'0' + n % 10) = (omega arith, omega arith) in
    let more = digits-All fuel (n / 10) ((b'0' + n % 10) ∷ out) (d, h) in
    elim (Bool-cases (n / 10 == 0)) [ inl e ↦ rw e (d, h) | inr e ↦ rw e more ]

digits-nonempty : (fuel n : ℕ) (c : ℕ) (out : Text) → is_empty (digits fuel n (c ∷ out)) ≡ false
unfolding digits
digits-nonempty zero n c out = refl
digits-nonempty (suc fuel) n c out =
    let more = digits-nonempty fuel (n / 10) (b'0' + n % 10) (c ∷ out) in
    elim (Bool-cases (n / 10 == 0)) [ inl e ↦ rw e refl | inr e ↦ rw e more ]

pub decimal-IsNumber : (n : ℕ) → IsNumber (decimal n)
unfolding decimal digits
decimal-IsNumber n = record {
  nonempty = elim (Bool-cases (n / 10 == 0)) [
    | inl e ↦ rw e refl
    | inr e ↦ rw e (digits-nonempty 19 (n / 10) (b'0' + n % 10) [])
  ];
  all_digits = digits-All 20 n [] tt;
}

parse_digits-step :
    (limit n m : ℕ) (out : Text)
    → n < limit
    → m ≡ n / 10
    → parse_digits limit m ((b'0' + n % 10) ∷ out) ≡ parse_digits limit n out
unfolding parse_digits
parse_digits-step limit n m out h e =
    let back : m * 10 + (b'0' + n % 10 - b'0') ≡ n = omega (arith, e) in rw back (ground arith)

parse_digits-digits :
    (limit fuel n : ℕ) (out : Text)
    → n < 10 ^ fuel
    → n < limit
    → parse_digits limit 0 (digits fuel n out) ≡ parse_digits limit n out
unfolding digits
parse_digits-digits limit zero n out h l = let e : n ≡ 0 = omega arith in rw e refl
parse_digits-digits limit (suc fuel) n out h l = elim (Bool-cases (n / 10 == 0)) [
  | inl e ↦ rw e (parse_digits-step limit n 0 out l (ground arith))
  | inr e ↦ rw e (
      parse_digits-digits limit fuel (n / 10) ((b'0' + n % 10) ∷ out)
        (omega (arith, pow_step 10 fuel)) (omega arith)
      ∙ parse_digits-step limit n (n / 10) out l refl)
]

parse_u64_of_number : (s : Text) → IsNumber s → parse_u64 s ≡ parse_digits (2 ^ 64) 0 s
unfolding parse_u64 parse_number
parse_u64_of_number [] h = cc (h.nonempty)
parse_u64_of_number (c ∷ s) h = ground (arith, h.all_digits.0)

parse_digits-decimal : (n : ℕ) → n < 2 ^ 64 → parse_digits (2 ^ 64) 0 (decimal n) ≡ some n
unfolding decimal parse_digits
parse_digits-decimal n h = parse_digits-digits (2 ^ 64) 20 n [] (omega arith) h

-- Every `u64` is read back from its print.
pub parse_u64-decimal : (n : ℕ) → n < 2 ^ 64 → parse_u64 (decimal n) ≡ some n
parse_u64-decimal n h =
    parse_u64_of_number (decimal n) (decimal-IsNumber n) ∙ parse_digits-decimal n h
