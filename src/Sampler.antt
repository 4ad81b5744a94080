-- ===== src/Sampler.antt =====
-- harness/src/sampler.rs: the rows of the cgroup sampler, what one container cost, and what an arm of
-- several containers cost. A readable row holds no negative counter.
pub mod Peak
pub mod Sum
use spate_benchmark.Prelude.{
  ℕ, zero, suc, ◌+◌, ◌-◌, ◌*◌, ◌/◌, ◌^◌, min, max, Bool, true, false, Option, none, some, List, [],
  ◌∷◌, ◌++◌, map, Text, ◌&&◌, if◌then◌else◌, all, any, filter, length, ltb, leb, is_empty,
}
use spate_benchmark.Prelude.Int.{ℤ, pos, negsuc, pos_part, neg_part, leb_ℤ}
use spate_benchmark.Prelude.Strings.{trim, parse_i64}
use spate_benchmark.Selector.Split.{split}
use spate_benchmark.Ceiling.Float.{Float}

pub record Sample : Type 0 where
  pub t_ms : ℕ
  pub usage_usec : ℤ
  pub user_usec : ℤ
  pub system_usec : ℤ
  pub nr_throttled : ℤ
  pub throttled_usec : ℤ
  pub mem_current : ℤ
  pub mem_peak : ℤ
  pub anon : ℤ
  pub file : ℤ
  pub slab : ℤ
  pub kernel_stack : ℤ
  pub sock : ℤ

cons_number : Option ℤ → Option (List ℤ) → Option (List ℤ)
cons_number none rest = none
cons_number (some n) none = none
cons_number (some n) (some ns) = some (n ∷ ns)

-- `map(|s| s.trim().parse().ok()).collect::<Option<_>>()`
numbers : List Text → Option (List ℤ)
unfolding cons_number
numbers [] = some []
numbers (s ∷ ss) = cons_number (parse_i64 (trim s)) (numbers ss)

sample_at : ℤ → List ℤ → Option Sample
sample_at (negsuc n) fields = none
sample_at (pos t) (u ∷ us ∷ sy ∷ nt ∷ th ∷ mc ∷ mp ∷ an ∷ fi ∷ sl ∷ ks ∷ so ∷ []) = some (record {
  t_ms = t;
  usage_usec = u;
  user_usec = us;
  system_usec = sy;
  nr_throttled = nt;
  throttled_usec = th;
  mem_current = mc;
  mem_peak = mp;
  anon = an;
  file = fi;
  slab = sl;
  kernel_stack = ks;
  sock = so;
})
sample_at (pos t) _ = none

sample_of : Option (List ℤ) → Option Sample
unfolding sample_at
sample_of none = none
sample_of (some []) = none
sample_of (some (t ∷ fields)) = sample_at t fields

pub parse : Text → Option Sample
unfolding numbers sample_of
parse line = sample_of (numbers (split b',' line))

unfoldable pub readable : Sample → Bool
readable s = all (leb_ℤ (pos 0)) (
    s.usage_usec ∷ s.user_usec ∷ s.system_usec ∷ s.nr_throttled ∷ s.throttled_usec ∷ s.mem_current
    ∷ s.mem_peak ∷ s.anon ∷ s.file ∷ s.slab ∷ s.kernel_stack ∷ s.sock ∷ [])

pub record Samples (F : Type 0) : Type 0 where
  pub meta : Text
  pub rows : List Sample
  pub wall_s : F

pub record SutCost (F : Type 0) : Type 0 where
  pub window_s : F
  pub cpu_us : F
  pub user_us : F
  pub system_us : F
  pub cores_used : F
  pub throttled_us : F
  pub nr_throttled : F
  pub peak_anon_bytes : F
  pub peak_charged_bytes : F
  pub peak_current_bytes : F
  pub samples : ℕ
  pub unreadable : ℕ

-- `rows.last()`, after the first row.
unfoldable pub last_of : Sample → List Sample → Sample
last_of s [] = s
last_of s (t ∷ ts) = last_of t ts

-- `(a - b).max(0)`
abbrev pub max0_sub : ℤ → ℤ → ℕ
max0_sub a b = (pos_part a + neg_part b) - (pos_part b + neg_part a)

-- The largest of a counter that is not negative.
pub max_over : (Sample → ℤ) → List Sample → ℕ
max_over f [] = 0
max_over f (s ∷ ss) = max (pos_part (f s)) (max_over f ss)

module _ (fl : Float) where
  open fl use {F, of_u64, add, mul, div, lt, le, decimal}

  summarise_window : List Sample → ℕ → Sample → Sample → F → Option (SutCost F)
  summarise_window rows unreadable first last window_s =
      let cpu_us = of_u64 (max0_sub last.usage_usec first.usage_usec) in
      if le window_s (decimal 0 1)
      then none
      else some (record {
        window_s = window_s;
        cpu_us = cpu_us;
        user_us = of_u64 (max0_sub last.user_usec first.user_usec);
        system_us = of_u64 (max0_sub last.system_usec first.system_usec);
        cores_used = div cpu_us (mul window_s (decimal 1000000 1));
        throttled_us = of_u64 (max0_sub last.throttled_usec first.throttled_usec);
        nr_throttled = of_u64 (max0_sub last.nr_throttled first.nr_throttled);
        peak_anon_bytes = of_u64 (max_over (λ s. s.anon) rows);
        peak_charged_bytes = of_u64 (pos_part last.mem_peak);
        peak_current_bytes = of_u64 (max_over (λ s. s.mem_current) rows);
        samples = length rows;
        unreadable = unreadable;
      })

  -- The readable rows, with the number of the others.
  summarise_readable : List Sample → ℕ → Option (SutCost F)
  unfolding summarise_window
  summarise_readable [] unreadable = none
  summarise_readable (first ∷ []) unreadable = none
  summarise_readable (first ∷ s ∷ ss) unreadable =
      let last = last_of s ss in
      summarise_window (first ∷ s ∷ ss) unreadable first last
        (div (of_u64 (last.t_ms - first.t_ms)) (decimal 1000 1))

  pub summarise : Samples F → Option (SutCost F)
  unfolding summarise_readable
  summarise series =
      let rows = filter readable series.rows in
      summarise_readable rows (length series.rows - length rows)

  pub cons_present : SutCost F → Option (List (SutCost F)) → Option (List (SutCost F))
  cons_present c none = none
  cons_present c (some cs) = some (c ∷ cs)

  -- `filter_map(|p| *p)` where no part is absent, `none` where one is.
  pub present : List (Option (SutCost F)) → Option (List (SutCost F))
  unfolding cons_present
  present [] = some []
  present (none ∷ ps) = none
  present (some c ∷ ps) = cons_present c (present ps)

  pub add_over : (SutCost F → F) → List (SutCost F) → F → F
  add_over f [] total = total
  add_over f (c ∷ cs) total = add_over f cs (add total (f c))

  -- `fold(0.0, f64::max)`
  pub longest : List (SutCost F) → F → F
  longest [] w = w
  longest (c ∷ cs) w = longest cs (if lt w c.window_s then c.window_s else w)

  pub min_samples : SutCost F → List (SutCost F) → ℕ
  min_samples c [] = c.samples
  min_samples c (d ∷ ds) = min c.samples (min_samples d ds)

  pub sum_unreadable : List (SutCost F) → ℕ
  sum_unreadable [] = 0
  sum_unreadable (c ∷ cs) = c.unreadable + sum_unreadable cs

  pub sum_present : Option (List (SutCost F)) → Option (SutCost F)
  sum_present none = none
  sum_present (some []) = none
  sum_present (some (c ∷ cs)) =
      let window_s = longest (c ∷ cs) (decimal 0 1) in
      let total = λ (f : SutCost F → F). add_over f (c ∷ cs) (decimal 0 1) in
      if le window_s (decimal 0 1)
      then none
      else some (record {
        window_s = window_s;
        cpu_us = total (λ p. p.cpu_us);
        user_us = total (λ p. p.user_us);
        system_us = total (λ p. p.system_us);
        cores_used = div (total (λ p. p.cpu_us)) (mul window_s (decimal 1000000 1));
        throttled_us = total (λ p. p.throttled_us);
        nr_throttled = total (λ p. p.nr_throttled);
        peak_anon_bytes = total (λ p. p.peak_anon_bytes);
        peak_charged_bytes = total (λ p. p.peak_charged_bytes);
        peak_current_bytes = total (λ p. p.peak_current_bytes);
        samples = min_samples c cs;
        unreadable = sum_unreadable (c ∷ cs);
      })

  pub sum : List (Option (SutCost F)) → Option (SutCost F)
  unfolding present sum_present
  sum parts = sum_present (present parts)

  -- `none` for the NaN of no rows.
  pub cpu_us_per_row : SutCost F → F → Option F
  cpu_us_per_row c rows = if le rows (decimal 0 1) then none else some (div c.cpu_us rows)

  pub rows_per_s : SutCost F → F → F
  rows_per_s c rows = if lt (decimal 0 1) c.window_s then div rows c.window_s else decimal 0 1

  pub was_throttled : SutCost F → Bool
  was_throttled c = lt (decimal 0 1) c.nr_throttled
