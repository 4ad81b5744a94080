-- ===== src/Driver/Overrides/Kept.antt =====
-- What the insertion of entries keeps of a map, and what it adds.
use spate_benchmark.Prelude.{
  Bool, true, false, ◌||◌, some, [], ◌∷◌, Text, text_eq, eq_of_text_eq, text_eq_refl, any, ◌≡◌,
  refl, ap, sym, ◌∙◌, All, Bool-cases, inl, inr, subst,
}
use spate_benchmark.Entrant.Descriptor.{Map, get}
use spate_benchmark.Entrant.Knobs.{keys}
use spate_benchmark.Driver.Overrides.{text_lt, insert, insert_all}

abbrev pub has_key : {V : Type 0} → Text → Map V → Bool
has_key k m = any (λ name. text_eq name k) (keys m)

or_right : (a b : Bool) → b ≡ true → (a || b) ≡ true
or_right true b h = refl
or_right false b h = h

module _ {V : Type 0} (P : Text × V → Type 0) where
  -- The value under a key that is there.
  pub get-has :
      (k : Text) (m : Map V)
      → All P m
      → has_key k m ≡ true
      → (w : V) × (get k m ≡ some w) × P (k, w)
  unfolding keys
  get-has k [] _ h = cc
  get-has k ((j, a) ∷ m) (p, ps) h = elim (Bool-cases (text_eq j k)) [
    | inl e ↦ (a, rw e refl, subst (λ t. P (t, a)) (eq_of_text_eq j k e) p)
    | inr n ↦
        let (w, g, q) = get-has k m ps (ap (λ b. b || has_key k m) (sym n) ∙ h) in (w, rw n g, q)
  ]

  insert-All : (k : Text) (v : V) (m : Map V) → P (k, v) → All P m → All P (insert k v m)
  unfolding insert
  insert-All k v [] p _ = (p, tt)
  insert-All k v ((l, w) ∷ rest) p (q, qs) = elim (Bool-cases (text_eq l k)) [
    | inl e ↦ rw e (p, qs)
    | inr n ↦ rw n (elim (Bool-cases (text_lt k l)) [
      | inl e ↦ rw e (p, (q, qs))
      | inr f ↦ rw f (q, insert-All k v rest p qs)
    ])
  ]

  pub insert_all-All : (out m : Map V) → All P out → All P m → All P (insert_all out m)
  unfolding insert_all
  insert_all-All out [] h _ = h
  insert_all-All out ((k, v) ∷ m) h (p, ps) =
      insert_all-All (insert k v out) m (insert-All k v out p h) ps

module _ {V : Type 0} where
  insert-has : (k : Text) (v : V) (m : Map V) → has_key k (insert k v m) ≡ true
  unfolding insert keys
  insert-has k v [] = rw (text_eq_refl k) refl
  insert-has k v ((l, w) ∷ m) = elim (Bool-cases (text_eq l k)) [
    | inl e ↦ rw (e, text_eq_refl k) refl
    | inr n ↦ rw n (elim (Bool-cases (text_lt k l)) [
      | inl e ↦ rw (e, text_eq_refl k) refl
      | inr f ↦ rw (f, n) (insert-has k v m)
    ])
  ]

  insert-keeps :
      (j k : Text) (v : V) (m : Map V) → has_key j m ≡ true → has_key j (insert k v m) ≡ true
  unfolding insert keys
  insert-keeps j k v [] h = cc
  insert-keeps j k v ((l, w) ∷ m) h = elim (Bool-cases (text_eq l k)) [
    | inl e ↦ rw e (subst (λ t. (text_eq t j || has_key j m) ≡ true) (eq_of_text_eq l k e) h)
    | inr n ↦ rw n (elim (Bool-cases (text_lt k l)) [
      | inl e ↦ rw e (or_right (text_eq k j) (text_eq l j || has_key j m) h)
      | inr f ↦ rw f (elim (Bool-cases (text_eq l j)) [
        | inl s ↦ rw s refl
        | inr d ↦ rw d (insert-keeps j k v m (ap (λ b. b || has_key j m) (sym d) ∙ h))
      ])
    ])
  ]

  pub insert_all-keeps :
      (j : Text) (out m : Map V) → has_key j out ≡ true → has_key j (insert_all out m) ≡ true
  unfolding insert_all
  insert_all-keeps j out [] h = h
  insert_all-keeps j out ((k, v) ∷ m) h =
      insert_all-keeps j (insert k v out) m (insert-keeps j k v out h)

  pub insert_all-has : (out m : Map V) → All (λ p. has_key (p.0) (insert_all out m) ≡ true) m
  unfolding insert_all
  insert_all-has out [] = tt
  insert_all-has out ((k, v) ∷ m) = (
    insert_all-keeps k (insert k v out) m (insert-has k v out),
    insert_all-has (insert k v out) m,
  )
