-- ===== src/Selector/Expand/Selected.antt =====
-- What `expand` selects: each arm once, every arm that a selector asks for, and no other.
use spate_benchmark.Prelude.{
  true, false, List, [], ◌∷◌, ◌++◌, ◌≡◌, refl, arith, any, ◌==◌, ◌&&◌, All, All-append, All-map,
  any-append, any_of_mem, Bool-cases, inl, inr, text_eq_comm, subst,
}
use spate_benchmark.Entrant.Descriptor.{Entrant, Variant, id, is_runnable}
use spate_benchmark.Selector.{Selector}
use spate_benchmark.Selector.Expand.{
  Arm, Expansion, arms, refused, Progress, is_same, matches_entrant, matches_variant, visit_variant,
  visit_variants, visit_entrant, visit_entrants, names_unknown, expand_from, expand,
}

module _ {V : Type 0} (P : List (Arm V) → Type 0) where
  -- `P` survives the arm that a selector adds.
  abbrev pub Adds : Selector → Type 0
  Adds sel =
      (e : Entrant V) (v : Variant V) (out : List (Arm V))
      → is_runnable e.spec.entrant.status ≡ true
      → matches_entrant sel (id e) ≡ true
      → matches_variant sel v.id ≡ true
      → any (is_same e v) out ≡ false
      → P out
      → P (out ++ record { entrant = e; variant = v; image = sel.image } ∷ [])

  module _ (sel : Selector) (adds : Adds sel) where
    visit_variant_keeps :
        (e : Entrant V) (p : Progress V) (v : Variant V)
        → is_runnable e.spec.entrant.status ≡ true
        → matches_entrant sel (id e) ≡ true
        → P p.out
        → P (visit_variant sel e p v).out
    unfolding visit_variant
    visit_variant_keeps e p v r m h = elim (Bool-cases (matches_variant sel v.id)) [
      | inr n ↦ rw n h
      | inl y ↦ rw y (elim (Bool-cases (any (is_same e v) p.out)) [
        | inl old ↦ rw old h
        | inr new ↦ rw new (adds e v p.out r m y new h)
      ])
    ]

    pub visit_variants_keep :
        (e : Entrant V) (p : Progress V) (vs : List (Variant V))
        → is_runnable e.spec.entrant.status ≡ true
        → matches_entrant sel (id e) ≡ true
        → P p.out
        → P (visit_variants sel e p vs).out
    unfolding visit_variants
    visit_variants_keep e p [] r m h = h
    visit_variants_keep e p (v ∷ vs) r m h =
        visit_variants_keep e (visit_variant sel e p v) vs r m (visit_variant_keeps e p v r m h)

    visit_entrant_keeps : (p : Progress V) (e : Entrant V) → P p.out → P (visit_entrant sel p e).out
    unfolding visit_entrant
    visit_entrant_keeps p e h = elim (Bool-cases (is_runnable e.spec.entrant.status)) [
      | inr n ↦ rw n h
      | inl r ↦ rw r (elim (Bool-cases (matches_entrant sel (id e))) [
        | inr n ↦ rw n h
        | inl m ↦ rw m (visit_variants_keep e p e.spec.variants r m h)
      ])
    ]

    pub visit_entrants_keep :
        (p : Progress V) (es : List (Entrant V)) → P p.out → P (visit_entrants sel p es).out
    unfolding visit_entrants
    visit_entrants_keep p [] h = h
    visit_entrants_keep p (e ∷ es) h =
        visit_entrants_keep (visit_entrant sel p e) es (visit_entrant_keeps p e h)

  abbrev pub Lists : Expansion V → Type 0
  Lists (arms out) = P out
  Lists (refused x) = Unit

  pub expand_from_keeps :
      (es : List (Entrant V)) (out : List (Arm V)) (sels : List Selector)
      → All Adds sels
      → P out
      → Lists (expand_from es out sels)
  unfolding expand_from
  expand_from_keeps es out [] _ h = h
  expand_from_keeps es out (sel ∷ rest) (adds, more) h =
      let start : Progress V = record { out = out; hits = 0 } in
      elim (Bool-cases (names_unknown es sel)) [
        | inl u ↦ rw u tt
        | inr k ↦ rw k (elim (Bool-cases ((visit_entrants sel start es).hits == 0)) [
          | inl z ↦ rw z tt
          | inr n ↦ rw n (
              expand_from_keeps es (visit_entrants sel start es).out rest more
                (visit_entrants_keep sel adds start es h))
        ])
      ]

-- No arm is the arm of another.
abbrev pub Distinct : {V : Type 0} → List (Arm V) → Type 0
Distinct [] = Unit
Distinct (a ∷ out) = (any (is_same a.entrant a.variant) out ≡ false) × Distinct out

-- A runnable arm that one of the selectors names.
pub record IsAsked {V : Type 0} (sels : List Selector) (a : Arm V) : Type 0 where
  pub runnable : is_runnable a.entrant.spec.entrant.status ≡ true
  pub named :
      any (λ sel. matches_entrant sel (id a.entrant) && matches_variant sel a.variant.id) sels
      ≡ true

module _ {V : Type 0} where
  is_same_comm : (a b : Arm V) → is_same a.entrant a.variant b ≡ is_same b.entrant b.variant a
  is_same_comm a b =
      rw (text_eq_comm (id b.entrant) (id a.entrant), text_eq_comm b.variant.id a.variant.id) refl

  Distinct-append :
      (out : List (Arm V)) (a : Arm V)
      → any (is_same a.entrant a.variant) out ≡ false
      → Distinct out
      → Distinct (out ++ a ∷ [])
  Distinct-append [] a h _ = (refl, tt)
  Distinct-append (b ∷ out) a h (hb, d) = (
    ground (arith, any-append (is_same b.entrant b.variant) out (a ∷ []), is_same_comm a b),
    Distinct-append out a (ground arith) d,
  )

  -- `expand` never returns the same arm twice, whatever selectors overlap.
  pub expand-Distinct :
      (es : List (Entrant V)) (sels : List Selector) {out : List (Arm V)}
      → expand es sels ≡ arms out
      → Distinct out
  unfolding expand
  expand-Distinct es sels h = subst (Lists Distinct) h (
      expand_from_keeps Distinct es [] sels
        (All-map
          (λ sel _ e v out _ _ _ new d.
            Distinct-append out (record { entrant = e; variant = v; image = sel.image }) new d)
          sels (any_of_mem sels))
        tt)

  -- Every arm that `expand` returns is runnable, and one of the selectors names it.
  pub expand-IsAsked :
      (es : List (Entrant V)) (sels : List Selector) {out : List (Arm V)}
      → expand es sels ≡ arms out
      → All (IsAsked sels) out
  unfolding expand
  expand-IsAsked es sels h = subst (Lists (All (IsAsked sels))) h (
      expand_from_keeps (All (IsAsked sels)) es [] sels
        (All-map
          (λ sel among e v out r m n _ h.
            All-append (IsAsked sels) out
              (record { entrant = e; variant = v; image = sel.image } ∷ []) h
              (
                record {
                  runnable = r;
                  named =
                      among (λ s. matches_entrant s (id e) && matches_variant s v.id)
                        (ground arith);
                },
                tt,
              ))
          sels (any_of_mem sels))
        tt)
