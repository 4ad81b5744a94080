-- ===== src/Ceiling/Gate/Bound.antt =====
-- `Headroom::infra_bound` of harness/src/ceiling.rs. The order of floats is a parameter with the laws that
-- `total_cmp` and `<` have where neither side is a NaN.
use spate_benchmark.Prelude.{
  Bool, true, false, List, [], ◌∷◌, ◌||◌, ◌≡◌, refl, any, All, Bool-cases, inl, inr, ◌∙◌, sym, ap,
}
use spate_benchmark.Ceiling.Float.{Float}
use spate_benchmark.Ceiling.Gate.{
  Share, Headroom, max_share, max_of, bound_by, binding, exceeds, infra_bound,
}

-- `IsNumber x`: `x` is not a NaN.
pub record IsOrdered (fl : Float) (IsNumber : fl.F → Type 0) : Type 0 where
  pub total :
      (a b : fl.F) → IsNumber a → IsNumber b → fl.total_le a b ≡ false → fl.total_le b a ≡ true
  pub above :
      (l a b : fl.F)
      → IsNumber a
      → IsNumber b
      → fl.total_le a b ≡ true
      → fl.lt l a ≡ true
      → fl.lt l b ≡ true

absorbs : (a b : Bool) → (a ≡ true → b ≡ true) → (a || b) ≡ b
absorbs true b h = sym (h refl)
absorbs false b h = refl

absorbs_right : (a b : Bool) → (b ≡ true → a ≡ true) → a ≡ (a || b)
absorbs_right true b h = refl
absorbs_right false true h = h refl
absorbs_right false false h = refl

or_assoc : (a b c : Bool) → ((a || b) || c) ≡ (a || (b || c))
or_assoc true b c = refl
or_assoc false b c = refl

module _ (fl : Float) (IsNumber : fl.F → Type 0) (order : IsOrdered fl IsNumber) where
  abbrev AllNumbers : List (Share fl.F) → Type 0
  AllNumbers ss = All (λ s. IsNumber s.share) ss

  exceeds-max_share :
      (s : Share fl.F) (ss : List (Share fl.F))
      → IsNumber s.share
      → AllNumbers ss
      → exceeds fl (max_share fl s ss) ≡ any (exceeds fl) (s ∷ ss)
  unfolding max_share exceeds
  exceeds-max_share s [] n _ = absorbs_right _ false (λ h. cc)
  exceeds-max_share s (t ∷ ts) n (m, ns) = elim (Bool-cases (fl.total_le s.share t.share)) [
    | inl le ↦ rw le (
        let rest = exceeds-max_share t ts m ns in
        let climbs =
          absorbs (exceeds fl s) (exceeds fl t)
            (order.above (fl.decimal 70 100) s.share t.share n m le) in
        rest
        ∙ ap (λ b. b || any (exceeds fl) ts) (sym climbs)
        ∙ or_assoc (exceeds fl s) (exceeds fl t) (any (exceeds fl) ts))
    | inr gt ↦ rw gt (
        let rest = exceeds-max_share s ts n ns in
        let stays = absorbs_right (exceeds fl s) (exceeds fl t) (
          order.above (fl.decimal 70 100) t.share s.share m n
            (order.total s.share t.share n m gt)) in
        rest
        ∙ ap (λ b. b || any (exceeds fl) ts) stays
        ∙ or_assoc (exceeds fl s) (exceeds fl t) (any (exceeds fl) ts))
  ]

  bound_by-max_of :
      (ss : List (Share fl.F)) → AllNumbers ss → bound_by fl (max_of fl ss) ≡ any (exceeds fl) ss
  unfolding bound_by max_of
  bound_by-max_of [] _ = refl
  bound_by-max_of (s ∷ ss) (n, ns) = exceeds-max_share s ss n ns

  -- An arm counts as bound by the infrastructure exactly when any of its shares exceeds the limit,
  -- where no share is a NaN.
  pub infra_bound-any :
      (h : Headroom fl.F) → AllNumbers h.shares → infra_bound fl h ≡ any (exceeds fl) h.shares
  unfolding infra_bound binding
  infra_bound-any h ns = bound_by-max_of h.shares ns
