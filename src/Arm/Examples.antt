-- ===== src/Arm/Examples.antt =====
-- The arm over the committed workload.
use spate_benchmark.Prelude.{◌≡◌, refl, arith, false, codes}
use spate_benchmark.Prelude.Int.{pos, negsuc, div_i64, mul_i64}
use spate_benchmark.Scaled.{thousandths, committed}
use spate_benchmark.Corpus.Avro.{batch_value}
use spate_benchmark.Corpus.Expected.{zero_expected, expected_range}
use spate_benchmark.Arm.{flatten_value, ascii_upper, value_scaled}
use spate_benchmark.Arm.Agrees.{
  IsRestated, generated_rows, tally_batches, flatten_batch, flatten_expected_range,
}

restated : IsRestated thousandths committed
restated = record { drop_unit = refl; quality_floor = refl; events_fit = omega arith }

upper : ascii_upper (codes "metric_7") ≡ codes "METRIC_7"
unfolding ascii_upper
upper = refl

truncates : value_scaled (negsuc 0) 2 ≡ negsuc 332
unfolding value_scaled mul_i64 div_i64
truncates = refl

flatten_batch_example :
    flatten_value thousandths (batch_value thousandths committed 7 (pos 1))
    ≡ record { rows = generated_rows thousandths committed 7 (pos 1) 0 100; panicked = false }
flatten_batch_example = flatten_batch thousandths committed restated 7 (pos 1) (omega arith)

flatten_expected_range_example :
    tally_batches thousandths committed
      (λ i. batch_value thousandths committed i (pos i))
      zero_expected
      3
      2
    ≡ expected_range thousandths committed 3 5
flatten_expected_range_example =
    flatten_expected_range thousandths committed restated (λ i. pos i) 3 5 (omega arith)
      (omega arith)
