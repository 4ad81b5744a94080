-- ===== src/Results/Months.antt =====
-- The month of a record against an independent calendar: days counted by the lengths of the years and the
-- months before them.
use spate_benchmark.Prelude.{
  ℕ, ◌+◌, ◌-◌, ◌*◌, ◌/◌, ◌%◌, ◌≤◌, ◌<◌, leb, ◌==◌, ◌||◌, if◌then◌else◌, ◌≡◌, ◌⊎◌, inl, inr, ap, sym,
  subst, ◌∙◌, Bool-cases, arith,
}
use spate_benchmark.Results.{month_of, year_and_month}
use spate_benchmark.Results.Years.{is_leap, before_year, IsDayOf, march_year}

abbrev pub leap_day : ℕ → ℕ
leap_day y = if is_leap y then 1 else 0

-- The days of a year before a month.
abbrev pub days_before : ℕ → ℕ → ℕ
days_before y m =
    if m == 1
    then 0
    else if m == 2
    then 31
    else leap_day y
      + (if m == 3
          then 59
          else if m == 4
          then 90
          else if m == 5
          then 120
          else if m == 6
          then 151
          else if m == 7
          then 181
          else if m == 8
          then 212
          else if m == 9
          then 243
          else if m == 10
          then 273
          else if m == 11
          then 304
          else 334)

abbrev pub month_length : ℕ → ℕ → ℕ
month_length y m =
    if m == 2 then 28 + leap_day y else if m == 4 || m == 6 || m == 9 || m == 11 then 30 else 31

-- The days from the first of January of the year 1 to this one.
abbrev pub ordinal : ℕ → ℕ → ℕ → ℕ
ordinal y m d =
    365 * (y - 1) + (y - 1) / 4 - (y - 1) / 100 + (y - 1) / 400 + days_before y m + (d - 1)

-- A date of the epoch.
pub record IsDate (y m d : ℕ) : Type 0 where
  pub since_epoch : 1970 ≤ y
  pub month : (1 ≤ m) × (m ≤ 12)
  pub day : (1 ≤ d) × (d ≤ month_length y m)

before-march :
    (y m : ℕ) → 3 ≤ m → m ≤ 12 → days_before y m ≡ leap_day y + 59 + (153 * (m - 3) + 2) / 5
before-march y m h l = ground arith

-- The length of a month that ends no March year.
month_length-march :
    (y m : ℕ)
    → 3 ≤ m
    → m ≤ 12
    → month_length y m ≤ (153 * (m - 2) + 2) / 5 - (153 * (m - 3) + 2) / 5
month_length-march y m h l = ground arith

month_of-march :
    (m d : ℕ)
    → 3 ≤ m
    → m ≤ 12
    → 1 ≤ d
    → d ≤ (153 * (m - 2) + 2) / 5 - (153 * (m - 3) + 2) / 5
    → month_of ((153 * (m - 3) + 2) / 5 + (d - 1)) ≡ m
unfolding month_of
month_of-march m d h l a b = ground arith

month_of-january : (d : ℕ) → 1 ≤ d → d ≤ 31 → month_of (306 + (d - 1)) ≡ 1
unfolding month_of
month_of-january d a b = ground arith

month_of-february : (d : ℕ) → 1 ≤ d → d ≤ 29 → month_of (337 + (d - 1)) ≡ 2
unfolding month_of
month_of-february d a b = ground arith

abbrev years : ℕ → ℕ
years n = 365 * n + n / 4 - n / 100 + n / 400

years-leap_day : (y : ℕ) → 1 ≤ y → years (y - 1) + leap_day y + 365 ≡ years y
years-leap_day y h = ground arith

years-eras : (n : ℕ) → years n ≡ n / 400 * 146097 + before_year (n % 400)
years-eras n = omega arith

abbrev pub days_of : ℕ → ℕ → ℕ → ℕ
days_of y m d = ordinal y m d - 719162

abbrev in_march_year : ℕ → ℕ → ℕ × ℕ
in_march_year k n = (if leb k 2 then n + 1 else n, k)

abbrev date_of : ℕ → ℕ → ℕ × ℕ
date_of y m = (y, m)

filed : (k m n y : ℕ) → k ≡ m → (if leb m 2 then n + 1 else n) ≡ y → in_march_year k n ≡ date_of y m
filed k m n y e h = ap (λ j. in_march_year j n) e ∙ ap (λ z. date_of z m) h

of_march :
    (y m d ts : ℕ)
    → 1970 ≤ y
    → 3 ≤ m
    → m ≤ 12
    → 1 ≤ d
    → d ≤ month_length y m
    → ts / 86400000 ≡ days_of y m d
    → year_and_month ts ≡ (y, m)
of_march y m d ts hy h l a b e =
    let doy = (153 * (m - 3) + 2) / 5 + (d - 1) in
    let short = month_length-march y m h l in
    let month = month_of-march m d h l a (omega (arith, short, b)) in
    march_year (y / 400) (y % 400) doy ts (omega arith) (inl (omega (arith, short, b)))
      (omega (arith, e, before-march y m h l, years-leap_day y (omega arith), years-eras y))
    ∙ filed (month_of doy) m (y % 400 + y / 400 * 400) y month (ground arith)

of_january :
    (y d ts : ℕ)
    → 1970 ≤ y
    → 1 ≤ d
    → d ≤ 31
    → ts / 86400000 ≡ days_of y 1 d
    → year_and_month ts ≡ (y, 1)
of_january y d ts hy a b e =
    let doy = 306 + (d - 1) in
    march_year ((y - 1) / 400) ((y - 1) % 400) doy ts (omega arith) (inl (omega arith))
      (omega (arith, e, years-eras (y - 1)))
    ∙ filed (month_of doy) 1 ((y - 1) % 400 + (y - 1) / 400 * 400) y (month_of-january d a b)
        (omega arith)

-- The last day of February ends a March year of 366 days exactly where the year is a leap year.
february-IsDayOf :
    (y d : ℕ) → 1 ≤ y → d ≤ month_length y 2 → IsDayOf ((y - 1) % 400) (337 + (d - 1))
february-IsDayOf y d h b = elim (Bool-cases (leb d 28)) [
  | inl e ↦ inl (ground arith)
  | inr e ↦ inr (ground arith, ground arith)
]

of_february :
    (y d ts : ℕ)
    → 1970 ≤ y
    → 1 ≤ d
    → d ≤ month_length y 2
    → ts / 86400000 ≡ days_of y 2 d
    → year_and_month ts ≡ (y, 2)
of_february y d ts hy a b e =
    let doy = 337 + (d - 1) in
    march_year ((y - 1) / 400) ((y - 1) % 400) doy ts (omega arith)
      (february-IsDayOf y d (omega arith) b) (omega (arith, e, years-eras (y - 1)))
    ∙ filed (month_of doy) 2 ((y - 1) % 400 + (y - 1) / 400 * 400) y
        (month_of-february d a (ground arith)) (omega arith)

month-cases : (m : ℕ) → 1 ≤ m → (m ≡ 1) ⊎ ((m ≡ 2) ⊎ (3 ≤ m))
month-cases m h = elim (Bool-cases (leb m 1)) [
  | inl e ↦ inl (ground arith)
  | inr e ↦
      inr (elim (Bool-cases (leb m 2)) [ inl f ↦ inl (ground arith) | inr f ↦ inr (ground arith) ])
]

of_date :
    (y m d ts : ℕ)
    → IsDate y m d
    → ts / 86400000 ≡ days_of y m d
    → (m ≡ 1) ⊎ ((m ≡ 2) ⊎ (3 ≤ m))
    → year_and_month ts ≡ (y, m)
of_date y m d ts date e (inl o) =
    of_january y d ts date.since_epoch (date.day.0)
      (subst (λ k. d ≤ month_length y k) o (date.day.1)) (e ∙ ap (λ k. days_of y k d) o)
    ∙ ap (date_of y) (sym o)
of_date y m d ts date e (inr (inl o)) =
    of_february y d ts date.since_epoch (date.day.0)
      (subst (λ k. d ≤ month_length y k) o (date.day.1)) (e ∙ ap (λ k. days_of y k d) o)
    ∙ ap (date_of y) (sym o)
of_date y m d ts date e (inr (inr o)) =
    of_march y m d ts date.since_epoch o (date.month.1) (date.day.0) (date.day.1) e

-- A record of any instant of a day is filed under the year and the month that the calendar gives the
-- day: the rule of leap years and the lengths of the months, from 1970 on.
pub year_and_month-IsDate :
    (y m d ms : ℕ)
    → IsDate y m d
    → ms < 86400000
    → year_and_month (days_of y m d * 86400000 + ms) ≡ (y, m)
year_and_month-IsDate y m d ms date h =
    of_date y m d (days_of y m d * 86400000 + ms) date (omega arith) (month-cases m (date.month.0))
