-- ===== src/Selector/Expand/Complete.antt =====
-- Every arm that a selector asks for is among the arms that `expand` returns.
use spate_benchmark.Prelude.{
  true, List, [], ◌∷◌, ◌≡◌, arith, any, ◌==◌, text_eq_refl, All, All-map, any-append, Bool-cases,
  inl, inr, subst,
}
use spate_benchmark.Entrant.Descriptor.{Entrant, Variant, id, is_runnable}
use spate_benchmark.Selector.{Selector}
use spate_benchmark.Selector.Expand.{
  Arm, Expansion, arms, refused, Progress, is_same, matches_entrant, matches_variant, visit_variant,
  visit_variants, visit_entrant, visit_entrants, names_unknown, expand_from, expand,
}
use spate_benchmark.Selector.Expand.Selected.{
  Adds, Lists, visit_variants_keep, visit_entrants_keep, expand_from_keeps,
}

module _ {V : Type 0} where
  abbrev Has : Entrant V → Variant V → List (Arm V) → Type 0
  Has e v out = any (is_same e v) out ≡ true

  -- An arm that is there stays there.
  Has-Adds : (e : Entrant V) (v : Variant V) (sel : Selector) → Adds (Has e v) sel
  Has-Adds e v sel e' v' out _ _ _ _ h = ground (
    arith,
    any-append (is_same e v) out (record { entrant = e'; variant = v'; image = sel.image } ∷ []),
  )

  All-Adds : (e : Entrant V) (v : Variant V) (sels : List Selector) → All (Adds (Has e v)) sels
  All-Adds e v [] = tt
  All-Adds e v (sel ∷ sels) = (Has-Adds e v sel, All-Adds e v sels)

  Has-visit_variant :
      (sel : Selector) (e : Entrant V) (p : Progress V) (v : Variant V)
      → matches_variant sel v.id ≡ true
      → Has e v (visit_variant sel e p v).out
  unfolding visit_variant
  Has-visit_variant sel e p v m = rw m (elim (Bool-cases (any (is_same e v) p.out)) [
    | inl old ↦ rw old old
    | inr new ↦ rw new (
        ground (
          arith,
          any-append (is_same e v) p.out
              (record { entrant = e; variant = v; image = sel.image } ∷ []),
          text_eq_refl (id e),
          text_eq_refl v.id,
        ))
  ])

  abbrev VariantCovered : Selector → Entrant V → List (Arm V) → Variant V → Type 0
  VariantCovered sel e out v = matches_variant sel v.id ≡ true → Has e v out

  visit_variants_cover :
      (sel : Selector) (e : Entrant V) (p : Progress V) (vs : List (Variant V))
      → is_runnable e.spec.entrant.status ≡ true
      → matches_entrant sel (id e) ≡ true
      → All (VariantCovered sel e (visit_variants sel e p vs).out) vs
  unfolding visit_variants
  visit_variants_cover sel e p [] r m = tt
  visit_variants_cover sel e p (v ∷ vs) r m = (
    λ mv.
        visit_variants_keep (Has e v) sel (Has-Adds e v sel) e (visit_variant sel e p v) vs r m
          (Has-visit_variant sel e p v mv),
    visit_variants_cover sel e (visit_variant sel e p v) vs r m,
  )

  -- The arms of `e` that the selector asks for are in `out`.
  abbrev pub Covered : Selector → List (Arm V) → Entrant V → Type 0
  Covered sel out e =
      is_runnable e.spec.entrant.status ≡ true
      → matches_entrant sel (id e) ≡ true
      → All (VariantCovered sel e out) e.spec.variants

  Covered-visit_entrant :
      (sel : Selector) (p : Progress V) (e : Entrant V) → Covered sel (visit_entrant sel p e).out e
  unfolding visit_entrant
  Covered-visit_entrant sel p e r m = rw (r, m) (visit_variants_cover sel e p e.spec.variants r m)

  module _ (sel : Selector) where
    -- Whatever keeps each arm keeps what is covered.
    Covered-mono :
        (a b : List (Arm V))
        → ((e : Entrant V) (v : Variant V) → Has e v a → Has e v b)
        → (e : Entrant V) → Covered sel a e
        → Covered sel b e
    Covered-mono a b f e c r m = All-map (λ v h mv. f e v (h mv)) e.spec.variants (c r m)

    visit_entrants_cover :
        (p : Progress V) (es : List (Entrant V))
        → All (Covered sel (visit_entrants sel p es).out) es
    unfolding visit_entrants
    visit_entrants_cover p [] = tt
    visit_entrants_cover p (e ∷ es) = (
      Covered-mono (visit_entrant sel p e).out (visit_entrants sel (visit_entrant sel p e) es).out
          (λ e' v'.
            visit_entrants_keep (Has e' v') sel (Has-Adds e' v' sel) (visit_entrant sel p e) es)
          e (Covered-visit_entrant sel p e),
      visit_entrants_cover (visit_entrant sel p e) es,
    )

  abbrev CoversAll : List (Entrant V) → List Selector → Expansion V → Type 0
  CoversAll es sels (arms out) = All (λ sel. All (Covered sel out) es) sels
  CoversAll es sels (refused x) = Unit

  covers_cons :
      (es : List (Entrant V)) (sel : Selector) (rest : List Selector) (out : List (Arm V))
      (x : Expansion V)
      → All (Covered sel out) es
      → ((e : Entrant V) (v : Variant V) → Has e v out → Lists (Has e v) x)
      → CoversAll es rest x
      → CoversAll es (sel ∷ rest) x
  covers_cons es sel rest out (arms out') c keep h =
      (All-map (Covered-mono sel out out' keep) es c, h)
  covers_cons es sel rest out (refused x) c keep h = tt

  expand_from_covers :
      (es : List (Entrant V)) (out : List (Arm V)) (sels : List Selector)
      → CoversAll es sels (expand_from es out sels)
  unfolding expand_from
  expand_from_covers es out [] = tt
  expand_from_covers es out (sel ∷ rest) =
      let start : Progress V = record { out = out; hits = 0 } in
      let mid : List (Arm V) = (visit_entrants sel start es).out in
      elim (Bool-cases (names_unknown es sel)) [
        | inl u ↦ rw u tt
        | inr k ↦ rw k (elim (Bool-cases ((visit_entrants sel start es).hits == 0)) [
          | inl z ↦ rw z tt
          | inr n ↦ rw n (
              covers_cons es sel rest mid (expand_from es mid rest)
                (visit_entrants_cover sel start es)
                (λ e v. expand_from_keeps (Has e v) es mid rest (All-Adds e v rest))
                (expand_from_covers es mid rest))
        ])
      ]

  -- When `expand` returns arms, each runnable entrant's variant that some selector matches is one of
  -- them.
  pub expand_covers :
      (es : List (Entrant V)) (sels : List Selector) {out : List (Arm V)}
      → expand es sels ≡ arms out
      → All (λ sel. All (Covered sel out) es) sels
  unfolding expand
  expand_covers es sels h = subst (CoversAll es sels) h (expand_from_covers es [] sels)
