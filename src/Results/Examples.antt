-- ===== src/Results/Examples.antt =====
-- Months of instants.
use spate_benchmark.Prelude.{◌+◌, ◌*◌, [], ◌∷◌, codes, ◌≡◌, refl, arith}
use spate_benchmark.Corpus.Decimal.{decimal}
use spate_benchmark.Results.{year_and_month, year_month, path_for}
use spate_benchmark.Results.Months.{days_of, IsDate, year_and_month-IsDate}

epoch : year_month 0 ≡ codes "1970-01"
unfolding year_month decimal
epoch = refl

end_of_february : year_month 1709251199999 ≡ codes "2024-02"
unfolding year_month decimal
end_of_february = refl

filed_under :
    path_for (codes "results" ∷ []) (codes "m3") (codes "spate") 1785542400000
    ≡ codes "results" ∷ codes "m3" ∷ codes "spate" ∷ codes "2026-08.jsonl" ∷ []
unfolding path_for decimal
filed_under = refl

leap-IsDate : IsDate 2024 2 29
leap-IsDate = record {
  since_epoch = omega arith;
  month = (omega arith, omega arith);
  day = (omega arith, omega arith);
}

year_and_month-IsDate_example : year_and_month (days_of 2024 2 29 * 86400000 + 86399999) ≡ (2024, 2)
year_and_month-IsDate_example = year_and_month-IsDate 2024 2 29 86399999 leap-IsDate (omega arith)
