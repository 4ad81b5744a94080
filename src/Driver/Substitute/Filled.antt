-- ===== src/Driver/Substitute/Filled.antt =====
-- The substitution of a template's placeholders, one after the other.
use spate_benchmark.Prelude.{
  ℕ, ◌-◌, Bool, true, false, ◌||◌, Option, none, some, List, [], ◌∷◌, ◌++◌, Text, text_eq,
  eq_of_text_eq, text_eq_refl, text_eq_comm, length, any, if◌then◌else◌, ◌≡◌, refl, ap, sym, ◌∙◌,
  arith, append_assoc, All, All-append, Bool-cases, inl, inr,
}
use spate_benchmark.Prelude.Strings.{strip_prefix}
use spate_benchmark.Selector.Split.{Lacks}
use spate_benchmark.Entrant.Placeholders.{closed}
use spate_benchmark.Entrant.Placeholders.Template.{
  Part, char, hole, print, holes, IsName, IsTemplate, tokens, tokens-print,
}
use spate_benchmark.Driver.Substitute.{
  Run, replace_from, ok, or_empty, resolve_token, replaced, substitute_tokens, checked, substitute,
}
use spate_benchmark.Driver.Substitute.One.{
  replace_from-cons, replace_from-skip, replace_from-match, checked-ok,
}

or_true : (b : Bool) → (b || true) ≡ true
or_true true = refl
or_true false = refl

or_false : (b : Bool) → (b || false) ≡ b
or_false true = refl
or_false false = refl

-- The names differ, and hold no closing brace: no token is the start of the other.
strip_prefix-differ :
    (i j s : Text)
    → Lacks b'}' i
    → Lacks b'}' j
    → text_eq i j ≡ false
    → strip_prefix (i ++ b'}' ∷ b'}' ∷ []) (j ++ b'}' ∷ b'}' ∷ s) ≡ none
unfolding strip_prefix text_eq
strip_prefix-differ [] [] s _ _ e = cc
strip_prefix-differ [] (d ∷ j) s _ (h, hs) e = ground arith
strip_prefix-differ (c ∷ i) [] s (h, hs) _ e = ground arith
strip_prefix-differ (c ∷ i) (d ∷ j) s (h, hs) (k, ks) e =
    ground (arith, strip_prefix-differ i j s hs ks)

replace_from-none :
    (p v : Text) (c : ℕ) (s : Text)
    → strip_prefix p (c ∷ s) ≡ none
    → replace_from p v 0 (c ∷ s) ≡ c ∷ replace_from p v 0 s
unfolding replace_from
replace_from-none p v c s h =
    ap
      (λ (o : Option Text). elim o [
        | none ↦ c ∷ replace_from p v 0 s
        | some t ↦ v ++ replace_from p v (length p - 1) s
      ])
      h

module _ (i v : Text) where
  replace : Text → Text
  replace = replace_from (closed i) v 0

  second_brace :
      (j s : Text) → Lacks b'{' j → strip_prefix (closed i) (b'{' ∷ (j ++ b'}' ∷ b'}' ∷ s)) ≡ none
  unfolding strip_prefix
  second_brace [] s _ = refl
  second_brace (d ∷ j) s (h, hs) = ground arith

  -- Another placeholder is left as it is.
  replace_other :
      (j s : Text)
      → Lacks b'}' i
      → IsName j
      → text_eq i j ≡ false
      → replace (closed j ++ s) ≡ closed j ++ replace s
  unfolding replace strip_prefix
  replace_other j s hi (hj, kj) e =
      let whole = append_assoc j (b'}' ∷ b'}' ∷ []) s in
      ap (λ t. replace (b'{' ∷ b'{' ∷ t)) whole
      ∙ replace_from-none (closed i) v b'{' (b'{' ∷ (j ++ b'}' ∷ b'}' ∷ s))
          (strip_prefix-differ i j s hi kj e)
      ∙ ap (λ t. b'{' ∷ t)
          (replace_from-none (closed i) v b'{' (j ++ b'}' ∷ b'}' ∷ s) (second_brace j s hj))
      ∙ ap (λ t. b'{' ∷ b'{' ∷ replace t) (sym whole)
      ∙ ap (λ t. b'{' ∷ b'{' ∷ t)
          (replace_from-skip b'{' (b'{' ∷ (i ++ b'}' ∷ b'}' ∷ [])) v (j ++ b'}' ∷ b'}' ∷ []) s
            (All-append _ j (b'}' ∷ b'}' ∷ []) hj (omega arith, (omega arith, tt))))

module _ {V : Type 0} (run : Run V) where
  -- What a placeholder stands for.
  abbrev pub value_of : Text → Text
  value_of inner = or_empty (resolve_token run (some inner))

  abbrev pub fill : List Part → Text
  fill [] = []
  fill (char c ∷ ps) = c ∷ fill ps
  fill (hole inner ∷ ps) = value_of inner ++ fill ps

  -- The placeholder has a value, without an opening brace.
  abbrev pub Resolves : Text → Type 0
  Resolves inner = (v : Text) × (resolve_token run (some inner) ≡ some v) × Lacks b'{' v

  -- The text once the placeholders of some names are filled.
  render : List Text → List Part → Text
  render names [] = []
  render names (char c ∷ ps) = c ∷ render names ps
  render names (hole inner ∷ ps) =
      (if any (text_eq inner) names then value_of inner else closed inner) ++ render names ps

  value_of-Lacks : (inner : Text) → Resolves inner → Lacks b'{' (value_of inner)
  value_of-Lacks inner (v, e, h) = rw e h

  -- A place that is filled already is left as it is.
  replace_filled :
      (i j : Text) (names : List Text) (ps : List Part)
      → Resolves j
      → replace i (value_of i) (value_of j ++ render names ps)
        ≡ value_of j ++ replace i (value_of i) (render names ps)
  unfolding replace
  replace_filled i j names ps r =
      replace_from-skip b'{' (b'{' ∷ (i ++ b'}' ∷ b'}' ∷ [])) (value_of i) (value_of j)
        (render names ps) (value_of-Lacks j r)

  replace_open :
      (i j : Text) (names : List Text) (ps : List Part)
      → IsName i
      → IsName j
      → replace i (value_of i) (closed j ++ render names ps)
        ≡ (if text_eq j i then value_of j else closed j) ++ replace i (value_of i) (render names ps)
  unfolding replace
  replace_open i j names ps (_, hi) hj = elim (Bool-cases (text_eq j i)) [
    | inl e ↦
        let same = eq_of_text_eq j i e in
        rw (same, text_eq_refl i)
          (replace_from-match b'{' (b'{' ∷ (i ++ b'}' ∷ b'}' ∷ [])) (value_of i) (render names ps))
    | inr f ↦ rw f (replace_other i (value_of i) j (render names ps) hi hj (text_eq_comm i j ∙ f))
  ]

  replace-render :
      (i : Text) (names : List Text) (ps : List Part)
      → IsName i
      → IsTemplate ps
      → All Resolves (holes ps)
      → replace i (value_of i) (render names ps) ≡ render (i ∷ names) ps
  unfolding render replace replace_from
  replace-render i names [] _ _ _ = refl
  replace-render i names (char c ∷ ps) n (h, t) rs =
      replace_from-cons b'{' (b'{' ∷ (i ++ b'}' ∷ b'}' ∷ [])) (value_of i) c (render names ps) h
      ∙ ap (λ s. c ∷ s) (replace-render i names ps n t rs)
  replace-render i names (hole j ∷ ps) n (m, t) (r, rs) =
      let rest = replace-render i names ps n t rs in
      elim (Bool-cases (any (text_eq j) names)) [
        | inl e ↦
            rw (e, or_true (text_eq j i))
              (replace_filled i j names ps r ∙ ap (λ s. value_of j ++ s) rest)
        | inr f ↦
            rw (f, or_false (text_eq j i))
              (replace_open i j names ps n m
                ∙ ap (λ s. (if text_eq j i then value_of j else closed j) ++ s) rest)
      ]

  render-print : (ps : List Part) → render [] ps ≡ print ps
  unfolding render
  render-print [] = refl
  render-print (char c ∷ ps) = ap (λ s. c ∷ s) (render-print ps)
  render-print (hole i ∷ ps) =
      ap (λ s. closed i ++ s) (render-print ps)
      ∙ ap (λ t. b'{' ∷ b'{' ∷ t) (append_assoc i (b'}' ∷ b'}' ∷ []) (print ps))

  abbrev rev_onto : List Text → List Text → List Text
  rev_onto [] names = names
  rev_onto (i ∷ is) names = rev_onto is (i ∷ names)

  substitute_tokens-render :
      (is names : List Text) (ps : List Part)
      → All IsName is
      → All Resolves is
      → IsTemplate ps
      → All Resolves (holes ps)
      → substitute_tokens run (render names ps) (tokens is) ≡ render (rev_onto is names) ps
  unfolding substitute_tokens replace
  substitute_tokens-render [] names ps _ _ _ _ = refl
  substitute_tokens-render (i ∷ is) names ps (n, ns) ((v, e, h), rs) t all =
      let filled = replace-render i names ps n t all in
      let valued = ap or_empty e in
      ap (λ o. substitute_tokens run (replaced run (render names ps) (closed i) o) (tokens is))
        (e ∙ ap some (sym valued))
      ∙ ap (λ s. substitute_tokens run s (tokens is)) filled
      ∙ substitute_tokens-render is (i ∷ names) ps ns rs t all

  onto_keeps :
      (j : Text) (is names : List Text)
      → any (text_eq j) names ≡ true
      → any (text_eq j) (rev_onto is names) ≡ true
  onto_keeps j [] names h = h
  onto_keeps j (i ∷ is) names h =
      onto_keeps j is (i ∷ names) (ap (λ b. text_eq j i || b) h ∙ or_true (text_eq j i))

  onto_has : (is names : List Text) → All (λ j. any (text_eq j) (rev_onto is names) ≡ true) is
  onto_has [] names = tt
  onto_has (i ∷ is) names = (
    onto_keeps i is (i ∷ names) (ap (λ b. b || any (text_eq i) names) (text_eq_refl i)),
    onto_has is (i ∷ names),
  )

  render-fill :
      (names : List Text) (ps : List Part)
      → All (λ j. any (text_eq j) names ≡ true) (holes ps)
      → render names ps ≡ fill ps
  unfolding render
  render-fill names [] _ = refl
  render-fill names (char c ∷ ps) h = ap (λ s. c ∷ s) (render-fill names ps h)
  render-fill names (hole i ∷ ps) (h, hs) =
      rw h (ap (λ s. value_of i ++ s) (render-fill names ps hs))

  holes-All : (ps : List Part) → IsTemplate ps → All IsName (holes ps)
  holes-All [] _ = tt
  holes-All (char c ∷ ps) (h, t) = holes-All ps t
  holes-All (hole i ∷ ps) (h, t) = (h, holes-All ps t)

  fill-Lacks : (ps : List Part) → IsTemplate ps → All Resolves (holes ps) → Lacks b'{' (fill ps)
  fill-Lacks [] _ _ = tt
  fill-Lacks (char c ∷ ps) (h, t) rs = (h, fill-Lacks ps t rs)
  fill-Lacks (hole i ∷ ps) (h, t) (r, rs) =
      All-append _ (value_of i) (fill ps) (value_of-Lacks i r) (fill-Lacks ps t rs)

  -- A value of characters and placeholders is filled in, whatever order and however often its
  -- placeholders stand in it, where no opening brace stands outside of a placeholder, no brace in its
  -- name, and each placeholder has a value without an opening brace.
  pub substitute-fill :
      (ps : List Part)
      → IsTemplate ps
      → All Resolves (holes ps)
      → substitute run (print ps) ≡ ok (fill ps)
  unfolding substitute
  substitute-fill ps t rs =
      let is = holes ps in
      ap (λ ts. checked run (print ps) (substitute_tokens run (print ps) ts)) (tokens-print ps t)
      ∙ ap (λ s. checked run (print ps) (substitute_tokens run s (tokens is)))
          (sym (render-print ps))
      ∙ ap (checked run (print ps)) (
          substitute_tokens-render is [] ps (holes-All ps t) rs t rs
          ∙ render-fill (rev_onto is []) ps (onto_has is []))
      ∙ checked-ok run (print ps) (fill ps) (fill-Lacks ps t rs)
