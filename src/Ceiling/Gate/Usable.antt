-- ===== src/Ceiling/Gate/Usable.antt =====
-- Which consume ceilings `Ceilings::gate` accepts.
use spate_benchmark.Prelude.{
  ℕ, Bool, true, false, not, some, List, [], ◌∷◌, ◌++◌, Text, text_eq, ◌≡◌, refl, ◌&&◌, is_empty,
  Bool-cases, inl, inr, eq_of_text_eq, ◌∙◌, sym,
}
use spate_benchmark.Ceiling.Float.{Float}
use spate_benchmark.Ceiling.File.{ConsumeCeiling}
use spate_benchmark.Ceiling.Gate.{
  Reason, Check, is_inside, refuse, check_consume, gate_consume, size_differs_materially,
  mb_to_bytes,
}

-- `usable` says that nothing was pushed.
abbrev pub IsExact : {F : Type 0} → Check F → Type 0
IsExact k = k.usable ≡ is_empty k.refusals

module _ {F : Type 0} where
  append-nonempty : (rs : List (Reason F)) (r : Reason F) → is_empty (rs ++ r ∷ []) ≡ false
  append-nonempty [] r = refl
  append-nonempty (x ∷ rs) r = refl

  refuse-IsExact : (b : Bool) (r : Reason F) (k : Check F) → IsExact k → IsExact (refuse b r k)
  unfolding refuse
  refuse-IsExact true r k h = sym (append-nonempty k.refusals r)
  refuse-IsExact false r k h = h

  refuse-usable :
      (b : Bool) (r : Reason F) (k : Check F)
      → (refuse b r k).usable ≡ true
      → (b ≡ false) × (k.usable ≡ true)
  unfolding refuse
  refuse-usable true r k h = cc
  refuse-usable false r k h = (refl, h)

  pub is_empty-append :
      (xs ys : List (Reason F))
      → is_empty (xs ++ ys) ≡ true
      → (is_empty xs ≡ true) × (is_empty ys ≡ true)
  is_empty-append [] ys h = (refl, h)
  is_empty-append (x ∷ xs) ys h = cc

-- A consume ceiling that may be gated against: of this corpus's message size, taken inside the bench
-- network, under this environment's envelope.
pub record IsUsable (fl : Float) (corpus : ℕ) (digest : Text) (c : ConsumeCeiling fl.F)
    : Type 0 where
  pub size : size_differs_materially fl c.message_bytes corpus ≡ false
  pub inside : is_inside c.client ≡ true
  pub recorded : is_empty c.provenance.infra_digest ≡ false
  pub envelope : c.provenance.infra_digest ≡ digest

pub true_of_not : (b : Bool) → not b ≡ false → b ≡ true
true_of_not true h = refl
true_of_not false h = cc

same_envelope :
    (a digest : Text)
    → is_empty a ≡ false
    → (not (is_empty a) && not (text_eq a digest)) ≡ false
    → a ≡ digest
same_envelope a digest e h = eq_of_text_eq a digest (elim (Bool-cases (text_eq a digest)) [
  | inl same ↦ same
  | inr differ ↦
      let bad : (not (is_empty a) && not (text_eq a digest)) ≡ true = rw (e, differ) refl in cc
])

module _ (fl : Float) (corpus : ℕ) (digest : Text) where
  pub check_consume-IsExact : (c : ConsumeCeiling fl.F) → IsExact (check_consume fl c corpus digest)
  unfolding check_consume
  check_consume-IsExact c =
      refuse-IsExact _ _ _ (refuse-IsExact _ _ _ (refuse-IsExact _ _ _ (refuse-IsExact _ _ _ refl)))

  pub check_consume-IsUsable :
      (c : ConsumeCeiling fl.F)
      → (check_consume fl c corpus digest).usable ≡ true
      → IsUsable fl corpus digest c
  unfolding check_consume
  check_consume-IsUsable c h =
      let (other, h3) = refuse-usable _ _ _ h in
      let (empty, h2) = refuse-usable _ _ _ h3 in
      let (away, h1) = refuse-usable _ _ _ h2 in
      let (size, h0) = refuse-usable _ _ _ h1 in
      record {
        size = size;
        inside = true_of_not (is_inside c.client) away;
        recorded = empty;
        envelope = same_envelope c.provenance.infra_digest digest empty other;
      }

  -- A consume ceiling that is not refused is usable, and its rates are those that arms are held to.
  pub gate_consume-IsUsable :
      (c : ConsumeCeiling fl.F)
      → is_empty (gate_consume fl (some c) corpus digest).refusals ≡ true
      → IsUsable fl corpus digest c
  unfolding gate_consume
  gate_consume-IsUsable c h = check_consume-IsUsable c (check_consume-IsExact c ∙ h)

  pub gate_consume_rates :
      (c : ConsumeCeiling fl.F)
      → is_empty (gate_consume fl (some c) corpus digest).refusals ≡ true
      → ((gate_consume fl (some c) corpus digest).msgs_per_s ≡ c.msgs_per_s)
        × ((gate_consume fl (some c) corpus digest).bytes_per_s ≡ mb_to_bytes fl c.mb_per_s)
  unfolding gate_consume
  gate_consume_rates c h =
      let usable : (check_consume fl c corpus digest).usable ≡ true = check_consume-IsExact c ∙ h in
      (rw usable refl, rw usable refl)
