-- ===== src/Driver/Substitute/One.antt =====
-- The substitution of one placeholder.
use spate_benchmark.Prelude.{
  ℕ, suc, ◌-◌, ◌||◌, false, Option, none, some, [], ◌∷◌, ◌++◌, Text, codes, length, ◌≡◌, ◌≢◌, refl,
  ap, sym, ◌∙◌, arith, append_assoc, All-append,
}
use spate_benchmark.Prelude.Strings.{strip_prefix, contains, is_some}
use spate_benchmark.Selector.Split.{Lacks}
use spate_benchmark.Entrant.Placeholders.{Placeholder, parse, opened, closed}
use spate_benchmark.Entrant.Placeholders.Tokens.{tokens-Lacks, tokens_one}
use spate_benchmark.Driver.Substitute.{
  Run, replace_from, ok, resolve, resolve_parsed, resolve_token, replaced, substitute_tokens,
  checked, substitute,
}

pub strip_prefix-append : (p s : Text) → strip_prefix p (p ++ s) ≡ some s
unfolding strip_prefix
strip_prefix-append [] s = refl
strip_prefix-append (c ∷ p) s = ground (arith, strip_prefix-append p s)

pub strip_prefix-other : (a c : ℕ) (p s : Text) → c ≢ a → strip_prefix (a ∷ p) (c ∷ s) ≡ none
unfolding strip_prefix
strip_prefix-other a c p s h = ground arith

module _ (a : ℕ) (p value : Text) where
  pub replace_from-cons :
      (c : ℕ) (s : Text)
      → c ≢ a
      → replace_from (a ∷ p) value 0 (c ∷ s) ≡ c ∷ replace_from (a ∷ p) value 0 s
  unfolding replace_from
  replace_from-cons c s h =
      ap
        (λ (o : Option Text). elim o [
          | none ↦ c ∷ replace_from (a ∷ p) value 0 s
          | some t ↦ value ++ replace_from (a ∷ p) value (suc (length p) - 1) s
        ])
        (strip_prefix-other a c p s h)

  -- A text without the first character of the pattern is left as it is.
  pub replace_from-Lacks : (s : Text) → Lacks a s → replace_from (a ∷ p) value 0 s ≡ s
  unfolding replace_from
  replace_from-Lacks [] _ = refl
  replace_from-Lacks (c ∷ s) (h, hs) =
      replace_from-cons c s h ∙ ap (λ t. c ∷ t) (replace_from-Lacks s hs)

  pub replace_from-skip :
      (pre s : Text)
      → Lacks a pre
      → replace_from (a ∷ p) value 0 (pre ++ s) ≡ pre ++ replace_from (a ∷ p) value 0 s
  replace_from-skip [] s _ = refl
  replace_from-skip (c ∷ pre) s (h, hs) =
      replace_from-cons c (pre ++ s) h ∙ ap (λ t. c ∷ t) (replace_from-skip pre s hs)

  pub replace_from-past :
      (q s : Text) → replace_from (a ∷ p) value (length q) (q ++ s) ≡ replace_from (a ∷ p) value 0 s
  unfolding replace_from
  replace_from-past [] s = refl
  replace_from-past (c ∷ q) s = replace_from-past q s

  pub replace_from-match :
      (s : Text)
      → replace_from (a ∷ p) value 0 ((a ∷ p) ++ s) ≡ value ++ replace_from (a ∷ p) value 0 s
  unfolding replace_from
  replace_from-match s =
      ap
        (λ (o : Option Text). elim o [
          | none ↦ a ∷ replace_from (a ∷ p) value 0 (p ++ s)
          | some t ↦ value ++ replace_from (a ∷ p) value (suc (length p) - 1) (p ++ s)
        ])
        (strip_prefix-append (a ∷ p) s)
      ∙ ap (λ n. value ++ replace_from (a ∷ p) value n (p ++ s)) (omega arith)
      ∙ ap (λ t. value ++ t) (replace_from-past p s)

contains-Lacks : (s : Text) → Lacks b'{' s → contains (codes "{{") s ≡ false
unfolding contains
contains-Lacks [] _ = refl
contains-Lacks (c ∷ s) (h, hs) =
    ap (λ o. is_some o || contains (codes "{{") s) (strip_prefix-other b'{' c (b'{' ∷ []) s h)
    ∙ contains-Lacks s hs

module _ {V : Type 0} (run : Run V) where
  pub checked-ok : (raw out : Text) → Lacks b'{' out → checked run raw out ≡ ok out
  unfolding checked
  checked-ok raw out h = rw (contains-Lacks out h) refl

  -- A text without an opening brace is left as it is.
  pub substitute-plain : (raw : Text) → Lacks b'{' raw → substitute run raw ≡ ok raw
  unfolding substitute substitute_tokens
  substitute-plain raw h =
      ap (λ ts. checked run raw (substitute_tokens run raw ts)) (tokens-Lacks raw h)
      ∙ checked-ok raw raw h

  resolved_one :
      (inner v : Text) (p : Placeholder)
      → parse inner ≡ some p
      → resolve run p ≡ some v
      → resolve_token run (some inner) ≡ some v
  unfolding resolve_token resolve_parsed
  resolved_one inner v p hp hv = ap (resolve_parsed run) hp ∙ hv

  replaced_one :
      (pre inner post v : Text)
      → Lacks b'{' pre
      → Lacks b'{' post
      → replace_from (closed inner) v 0 (pre ++ (closed inner ++ post)) ≡ pre ++ (v ++ post)
  replaced_one pre inner post v hp hq =
      let body = b'{' ∷ inner ++ b'}' ∷ b'}' ∷ [] in
      replace_from-skip b'{' body v pre (closed inner ++ post) hp
      ∙ ap (λ t. pre ++ t) (replace_from-match b'{' body v post)
      ∙ ap (λ t. pre ++ (v ++ t)) (replace_from-Lacks b'{' body v post hq)

  -- A value with one placeholder becomes the text before it, what the placeholder stands for and the
  -- text after it, where those three hold no opening brace and the name no closing one.
  pub substitute_one :
      (pre inner post v : Text) (p : Placeholder)
      → Lacks b'{' pre
      → Lacks b'}' inner
      → Lacks b'{' post
      → Lacks b'{' v
      → parse inner ≡ some p
      → resolve run p ≡ some v
      → substitute run (pre ++ opened (inner ++ b'}' ∷ b'}' ∷ post)) ≡ ok (pre ++ (v ++ post))
  unfolding substitute substitute_tokens
  substitute_one pre inner post v p hp hi hq hv parsed resolved =
      let raw = pre ++ opened (inner ++ b'}' ∷ b'}' ∷ post) in
      let whole = append_assoc (opened inner) (b'}' ∷ b'}' ∷ []) post in
      ap (λ ts. checked run raw (substitute_tokens run raw ts)) (tokens_one pre inner post hp hi hq)
      ∙ ap (λ o. checked run raw (replaced run raw (closed inner) o))
          (resolved_one inner v p parsed resolved)
      ∙ ap (λ t. checked run raw (replace_from (closed inner) v 0 (pre ++ t))) (sym whole)
      ∙ ap (checked run raw) (replaced_one pre inner post v hp hq)
      ∙ checked-ok raw (pre ++ (v ++ post))
          (All-append _ pre (v ++ post) hp (All-append _ v post hv hq))
