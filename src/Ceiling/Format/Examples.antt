-- ===== src/Ceiling/Format/Examples.antt =====
-- Runs of the format restriction.
use spate_benchmark.Prelude.{[], ◌∷◌, codes, ◌≡◌, refl, text_eq}
use spate_benchmark.Ceiling.Format.{
  Format, wire_format, parse, same, all_combinations, chosen, unknown, select_combinations,
}

two_of_five :
    select_combinations (codes "rowbinary" ∷ codes "native" ∷ codes "rowbinary" ∷ [])
    ≡ chosen (Format.native ∷ Format.row_binary ∷ [])
unfolding select_combinations parse same all_combinations wire_format text_eq
two_of_five = refl

unknown_name : select_combinations (codes "native" ∷ codes "csv" ∷ []) ≡ unknown (codes "csv")
unfolding select_combinations parse same all_combinations wire_format text_eq
unknown_name = refl
