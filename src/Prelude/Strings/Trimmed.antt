-- ===== src/Prelude/Strings/Trimmed.antt =====
-- What trimming and the stripping of ends do to texts of known ends.
use Prim.Native.Nat.{ℕ}
use mathlib.Core.Path.{◌≡◌, refl, ap, sym, subst, ◌∙◌}
use mathlib.Core.Bool.{false}
use mathlib.Core.Option.{some}
use mathlib.Core.List.{[], ◌∷◌, ◌++◌, reverse, reverse-append, reverse-reverse, reverse-cons}
use native.Mathlib.Omega.{arith}
use spate_benchmark.Prelude.Lists.{All, All-append}
use spate_benchmark.Prelude.Texts.{Text}
use spate_benchmark.Prelude.Strings.{
  is_whitespace, trim_start, trim_end, trim, strip_prefix, strip_suffix, map_reverse,
}

abbrev pub IsSolid : ℕ → Type 0
IsSolid c = is_whitespace c ≡ false

trim_start-solid : (c : ℕ) (s : Text) → IsSolid c → trim_start (c ∷ s) ≡ c ∷ s
unfolding trim_start
trim_start-solid c s h = rw h refl

reverse-last : (s : Text) (d : ℕ) → reverse (s ++ d ∷ []) ≡ d ∷ reverse s
reverse-last s d = reverse-append s (d ∷ [])

trim_end-solid : (s : Text) (d : ℕ) → IsSolid d → trim_end (s ++ d ∷ []) ≡ s ++ d ∷ []
unfolding trim_end
trim_end-solid s d h =
    ap (λ (t : Text). reverse (trim_start t)) (reverse-last s d)
    ∙ ap reverse (trim_start-solid d (reverse s) h ∙ sym (reverse-last s d))
    ∙ reverse-reverse (s ++ d ∷ [])

-- A text between two characters that are not white space is trimmed already.
pub trim_between :
    (c d : ℕ) (s : Text) → IsSolid c → IsSolid d → trim ((c ∷ s) ++ d ∷ []) ≡ (c ∷ s) ++ d ∷ []
unfolding trim
trim_between c d s hc hd =
    ap trim_end (trim_start-solid c (s ++ d ∷ []) hc) ∙ trim_end-solid (c ∷ s) d hd

All-reverse : (P : ℕ → Type 0) (s : Text) → All P s → All P (reverse s)
All-reverse P [] h = tt
All-reverse P (c ∷ s) (p, h) =
    subst (All P) (sym (reverse-cons c s))
      (All-append P (reverse s) (c ∷ []) (All-reverse P s h) (p, tt))

trim_start_of_solid : (s : Text) → All IsSolid s → trim_start s ≡ s
unfolding trim_start
trim_start_of_solid [] h = refl
trim_start_of_solid (c ∷ s) (p, h) = rw p refl

-- A text without white space is trimmed already.
pub trim_of_solid : (s : Text) → All IsSolid s → trim s ≡ s
unfolding trim trim_end
trim_of_solid s h =
    ap (λ (t : Text). reverse (trim_start (reverse t))) (trim_start_of_solid s h)
    ∙ ap reverse (trim_start_of_solid (reverse s) (All-reverse IsSolid s h))
    ∙ reverse-reverse s

pub strip_prefix-char : (a : ℕ) (s : Text) → strip_prefix (a ∷ []) (a ∷ s) ≡ some s
unfolding strip_prefix
strip_prefix-char a s = ground arith

pub strip_suffix-char : (b : ℕ) (s : Text) → strip_suffix (b ∷ []) (s ++ b ∷ []) ≡ some s
unfolding strip_suffix
strip_suffix-char b s =
    ap (λ (t : Text). map_reverse (strip_prefix (b ∷ []) t)) (reverse-last s b)
    ∙ ap map_reverse (strip_prefix-char b (reverse s))
    ∙ ap some (reverse-reverse s)
