-- ===== src/Results/Years.antt =====
-- The years of the era of harness/src/results.rs: each starts in March, and a leap day ends it.
use spate_benchmark.Prelude.{
  ℕ, ◌+◌, ◌-◌, ◌*◌, ◌/◌, ◌%◌, ◌≤◌, ◌<◌, Bool, true, not, leb, ◌==◌, ◌&&◌, ◌||◌, if◌then◌else◌, ◌≡◌,
  ◌⊎◌, inl, inr, refl, ap, ◌∙◌, Bool-cases, arith,
}
use spate_benchmark.Results.{year_of_era, month_of, year_and_month}

abbrev pub is_leap : ℕ → Bool
is_leap y = (y % 4 == 0) && (not (y % 100 == 0) || (y % 400 == 0))

-- The days of the years of an era before this one, which starts in March.
abbrev pub before_year : ℕ → ℕ
before_year yoe = 365 * yoe + yoe / 4 - yoe / 100

year_of_era-common :
    (yoe doy : ℕ) → yoe < 400 → doy ≤ 364 → year_of_era (before_year yoe + doy) ≡ yoe
unfolding year_of_era
year_of_era-common yoe doy h l = omega arith

year_of_era-leap4 :
    (yoe : ℕ)
    → yoe < 400
    → (yoe + 1) % 4 ≡ 0
    → 1 ≤ (yoe + 1) % 100
    → year_of_era (before_year yoe + 365) ≡ yoe
unfolding year_of_era
year_of_era-leap4 yoe h l m = omega arith

year_of_era-leap400 : (yoe : ℕ) → yoe ≡ 399 → year_of_era (before_year yoe + 365) ≡ yoe
unfolding year_of_era
year_of_era-leap400 yoe h = omega arith

-- The day stands in the year of the era: each has 365 days, and one more where a leap day ends it.
abbrev pub IsDayOf : ℕ → ℕ → Type 0
IsDayOf yoe doy = (doy ≤ 364) ⊎ ((doy ≡ 365) × (is_leap (yoe + 1) ≡ true))

leap-cases :
    (yoe : ℕ)
    → yoe < 400
    → is_leap (yoe + 1) ≡ true
    → (((yoe + 1) % 4 ≡ 0) × (1 ≤ (yoe + 1) % 100)) ⊎ (yoe ≡ 399)
leap-cases yoe h l = elim (Bool-cases ((yoe + 1) % 100 == 0)) [
  | inl e ↦ inr (ground arith)
  | inr e ↦ inl (ground arith, ground arith)
]

year_of_era-IsDayOf :
    (yoe doy : ℕ) → yoe < 400 → IsDayOf yoe doy → year_of_era (before_year yoe + doy) ≡ yoe
year_of_era-IsDayOf yoe doy h (inl l) = year_of_era-common yoe doy h l
year_of_era-IsDayOf yoe doy h (inr (e, leap)) =
    ap (λ k. year_of_era (before_year yoe + k)) e ∙ (elim (leap-cases yoe h leap) [
      | inl (a, b) ↦ year_of_era-leap4 yoe h a b
      | inr a ↦ year_of_era-leap400 yoe a
    ])

IsDayOf-lt : (yoe doy : ℕ) → yoe < 400 → IsDayOf yoe doy → before_year yoe + doy < 146097
IsDayOf-lt yoe doy h (inl l) = omega arith
IsDayOf-lt yoe doy h (inr (e, leap)) = elim (leap-cases yoe h leap) [
  | inl (a, b) ↦ omega arith
  | inr a ↦ omega arith
]

-- The year and the month of a day of the March year `400 * era + yoe`.
pub march_year :
    (era yoe doy ts : ℕ)
    → yoe < 400
    → IsDayOf yoe doy
    → ts / 86400000 + 719468 ≡ era * 146097 + (before_year yoe + doy)
    → year_and_month ts
      ≡ (if leb (month_of doy) 2 then yoe + era * 400 + 1 else yoe + era * 400, month_of doy)
unfolding year_and_month month_of
march_year era yoe doy ts h d e =
    let lt = IsDayOf-lt yoe doy h d in
    let doe : (ts / 86400000 + 719468) % 146097 ≡ before_year yoe + doy = omega arith in
    let eras : (ts / 86400000 + 719468) / 146097 ≡ era = omega arith in
    let rest : before_year yoe + doy - (365 * yoe + yoe / 4 - yoe / 100) ≡ doy = omega arith in
    rw (doe, eras, year_of_era-IsDayOf yoe doy h d, rest) refl
