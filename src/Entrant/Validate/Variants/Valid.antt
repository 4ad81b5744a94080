-- ===== src/Entrant/Validate/Variants/Valid.antt =====
-- The variants that pass the validation: their ids, and the default one.
use spate_benchmark.Prelude.{
  ℕ, zero, suc, Bool, true, false, not, Option, none, some, List, [], ◌∷◌, ◌++◌, Text, codes,
  text_eq, text_eq_refl, text_eq_comm, any, find, filter, length, get_elem?, is_empty, ◌==◌, ◌&&◌,
  ◌≡◌, ◌⊎◌, inl, inr, refl, ap, sym, ◌∙◌, arith, All, All-map, subst, some_injective,
  append-nil_iff, Bool-cases, ==_iff,
}
use spate_benchmark.Entrant.Descriptor.{get, Variant}
use spate_benchmark.Entrant.Validate.Parts.{report_if, report_if-nil}
use spate_benchmark.Entrant.Validate.Env.Known.{true_of_not}
use spate_benchmark.Entrant.Validate.Variants.{
  is_id, is_realistic, is_stripped, check_wire_format, check_unshipped, check_variants,
  check_default, validate_variants,
}

first_nil : {A : Type 0} (xs ys : List A) → xs ++ ys ≡ [] → (xs ≡ []) × (ys ≡ [])
first_nil xs ys h = (append-nil_iff xs ys).0 h

clear_of : {A : Type 0} (b : Bool) (p : A) → report_if b p ≡ [] → b ≡ false
clear_of b p h = (report_if-nil b p).0 h

wire_format-reported :
    {F : Type 0} (id : Text) (o : Option Text)
    → check_wire_format {F = F} id o ≡ []
    → (format : Text) × (o ≡ some format)
unfolding check_wire_format
wire_format-reported id none h = cc
wire_format-reported id (some f) h = (f, refl)

shipped_of : (a b : Bool) → (not a && not b) ≡ false → (a ≡ true) ⊎ (b ≡ true)
shipped_of a b h = ground arith

module _ {V : Type 0} where
  -- What one variant passes, after the ids seen.
  pub record IsFine (seen : List Text) (v : Variant V) : Type 0 where
    pub fresh : any (text_eq v.id) seen ≡ false
    pub spelled : is_id v.id ≡ true
    pub reported : (format : Text) × (get (codes "wire_format") v.reports ≡ some format)
    pub shipped : (is_empty v.unshipped ≡ true) ⊎ (is_stripped v.approach ≡ true)

  abbrev AllFine : List Text → List (Variant V) → Type 0
  AllFine seen [] = Unit
  AllFine seen (v ∷ vs) = IsFine seen v × AllFine (v.id ∷ seen) vs

  check_variants-Fine :
      {F : Type 0} (seen : List Text) (vs : List (Variant V))
      → check_variants {F = F} seen vs ≡ []
      → AllFine seen vs
  unfolding check_variants
  check_variants-Fine seen [] h = tt
  check_variants-Fine {F} seen (v ∷ vs) h =
      let (p, h1) = first_nil (report_if (any (text_eq v.id) seen) _) _ h in
      let (q, h2) = first_nil (report_if (not (is_id v.id)) _) _ h1 in
      let (r, h3) =
        first_nil (check_wire_format {F = F} v.id (get (codes "wire_format") v.reports)) _ h2 in
      let (_, h4) = first_nil (check_unshipped {F = F} v.id v.unshipped) _ h3 in
      let (s, h5) =
        first_nil (report_if (not (is_empty v.unshipped) && not (is_stripped v.approach)) _) _ h4 in
      (
        record {
          fresh = clear_of _ _ p;
          spelled = true_of_not _ (clear_of _ _ q);
          reported = wire_format-reported {F = F} v.id (get (codes "wire_format") v.reports) r;
          shipped = shipped_of (is_empty v.unshipped) (is_stripped v.approach) (clear_of _ _ s);
        },
        check_variants-Fine {F = F} (v.id ∷ seen) vs h5,
      )

  -- The id of a variant is not among those seen before it.
  IsFine-at :
      (seen : List Text) (vs : List (Variant V)) (i : ℕ) (v : Variant V)
      → AllFine seen vs
      → get_elem? vs i ≡ some v
      → (before : List Text) × IsFine before v × (any (text_eq v.id) seen ≡ false)
  IsFine-at seen [] i v f e = cc
  IsFine-at seen (w ∷ vs) zero v (f, fs) e =
      let same = some_injective e in
      (seen, subst (IsFine seen) same f, subst (λ u. any (text_eq u.id) seen ≡ false) same f.fresh)
  IsFine-at seen (w ∷ vs) (suc i) v (f, fs) e =
      let (before, g, later) = IsFine-at (w.id ∷ seen) vs i v fs e in (before, g, ground arith)

  find-own :
      (seen : List Text) (vs : List (Variant V)) (i : ℕ) (v : Variant V)
      → AllFine seen vs
      → get_elem? vs i ≡ some v
      → find (λ w. text_eq w.id v.id) vs ≡ some v
  find-own seen [] i v f e = cc
  find-own seen (w ∷ vs) zero v (f, fs) e =
      let same = some_injective e in
      rw (ap (λ (u : Variant V). text_eq u.id v.id) same ∙ text_eq_refl v.id) e
  find-own seen (w ∷ vs) (suc i) v (f, fs) e =
      let (_, _, later) = IsFine-at (w.id ∷ seen) vs i v fs e in
      let other : text_eq v.id w.id ≡ false = ground arith in
      rw (text_eq_comm w.id v.id ∙ other) (find-own (w.id ∷ seen) vs i v fs e)

module _ {A : Type 0} (p : A → Bool) where
  count_hit :
      (y : A) (ys : List A) → p y ≡ true → length (filter p (y ∷ ys)) ≡ suc (length (filter p ys))
  count_hit y ys e = rw e refl

  count_miss :
      (y : A) (ys : List A) → p y ≡ false → length (filter p (y ∷ ys)) ≡ length (filter p ys)
  count_miss y ys e = rw e refl

  -- Nothing passes the test where none is counted.
  none_left : (xs : List A) → length (filter p xs) ≡ 0 → All (λ x. p x ≡ false) xs
  none_left [] h = tt
  none_left (y ∷ ys) h = elim (Bool-cases (p y)) [
    | inl t ↦ let c = count_hit y ys t in absurd (omega arith)
    | inr f ↦ (f, none_left ys (sym (count_miss y ys f) ∙ h))
  ]

  abbrev pub Only : A → A → Type 0
  Only d x = (p x ≡ false) ⊎ (x ≡ d)

  -- The only one that passes a test is found, and is every one that passes it.
  pub find-Only :
      (xs : List A)
      → length (filter p xs) ≡ 1
      → (d : A) × (find p xs ≡ some d) × (p d ≡ true) × All (Only d) xs
  find-Only [] h = absurd (omega arith)
  find-Only (y ∷ ys) h = elim (Bool-cases (p y)) [
    | inl t ↦
        let c = count_hit y ys t in
        let others = none_left ys (omega arith) in
        (y, rw t refl, t, (inr refl, All-map (λ x f. inl f) ys others))
    | inr f ↦
        let (d, found, t, others) = find-Only ys (sym (count_miss y ys f) ∙ h) in
        (d, rw f found, t, (inl f, others))
  ]

module _ {F V : Type 0} (vs : List (Variant V)) (valid : validate_variants {F = F} vs ≡ []) where
  parts_of :
      (check_variants {F = F} [] vs ≡ [])
      × (length (filter (λ w. w.default) vs) ≡ 1)
      × (check_default {F = F} (find (λ w. w.default) vs) ≡ [])
  unfolding validate_variants
  parts_of = parts_from vs valid
    where
      parts_from :
          (ws : List (Variant V))
          → validate_variants {F = F} ws ≡ []
          → (check_variants {F = F} [] ws ≡ [])
            × (length (filter (λ w. w.default) ws) ≡ 1)
            × (check_default {F = F} (find (λ w. w.default) ws) ≡ [])
      parts_from [] h = cc
      parts_from (w ∷ ws) h =
          let found = length (filter (λ w. w.default) (w ∷ ws)) in
          let (p, h1) = first_nil (check_variants {F = F} [] (w ∷ ws)) _ h in
          let (q, r) = first_nil (report_if (not (found == 1)) _) _ h1 in
          (p, (==_iff found 1).0 (true_of_not _ (clear_of _ _ q)), r)

  -- The variant under an id is the one that has it.
  pub validate_variants-find :
      (i : ℕ) (v : Variant V) → get_elem? vs i ≡ some v → find (λ w. text_eq w.id v.id) vs ≡ some v
  validate_variants-find i v e =
      find-own [] vs i v (check_variants-Fine {F = F} [] vs (parts_of.0)) e

  pub validate_variants-Fine :
      (i : ℕ) (v : Variant V) → get_elem? vs i ≡ some v → (before : List Text) × IsFine before v
  validate_variants-Fine i v e =
      let (before, f, _) = IsFine-at [] vs i v (check_variants-Fine {F = F} [] vs (parts_of.0)) e in
      (before, f)

  realistic_of :
      (d : Variant V) → check_default {F = F} (some d) ≡ [] → is_realistic d.approach ≡ true
  unfolding check_default
  realistic_of d h = true_of_not _ (clear_of _ _ h)

  -- One variant is the default, it is found, and it is realistic.
  pub validate_variants-default :
      (d : Variant V) × (find (λ w. w.default) vs ≡ some d)
      × (d.default ≡ true)
      × (is_realistic d.approach ≡ true)
      × All (Only (λ w. w.default) d) vs
  validate_variants-default =
      let (d, found, marked, others) = find-Only (λ w. w.default) vs (parts_of.1) in
      (
        d,
        found,
        marked,
        realistic_of d (ap (check_default {F = F}) (sym found) ∙ parts_of.2),
        others,
      )
