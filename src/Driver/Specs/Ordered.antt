-- ===== src/Driver/Specs/Ordered.antt =====
-- The order of the containers: the control plane first.
use spate_benchmark.Prelude.{
  ℕ, true, false, not, Option, some, List, [], ◌∷◌, ◌++◌, ◌||◌, map, Text, codes, find, filter, ◌≡◌,
  ◌⊎◌, inl, inr, refl, ap, sym, ◌∙◌, arith, All, Bool-cases, any, any_of_mem,
}
use mathlib.Core.List.{reverse, reverse-append}
use spate_benchmark.Prelude.Strings.{ends_with, strip_prefix, strip_suffix, is_some, map_reverse}
use spate_benchmark.Entrant.Descriptor.{is_data_plane, Role, data_plane, control_plane, Container}
use spate_benchmark.Driver.Substitute.One.{strip_prefix-append}
use spate_benchmark.Driver.Specs.{SutSpec, full_name, role_key, key_of, insert_by, sort_by_key}

ends_with-append : (p s : Text) → ends_with s (p ++ s) ≡ true
unfolding ends_with strip_suffix
ends_with-append p s =
    ap (λ (t : Text). is_some (map_reverse (strip_prefix (reverse s) t))) (reverse-append p s)
    ∙ ap (λ (o : Option Text). is_some (map_reverse o))
        (strip_prefix-append (reverse s) (reverse p))

-- A container whose name the other's full name ends in has its role.
abbrev pub IsTold : Container → Container → Type 0
IsTold d c = (ends_with c.name (full_name d.name) ≡ false) ⊎ (c.role ≡ d.role)

abbrev pub key_of_role : Role → ℕ
key_of_role control_plane = 0
key_of_role data_plane = 1

Role-cases : (r : Role) → (r ≡ data_plane) ⊎ (r ≡ control_plane)
Role-cases data_plane = inl refl
Role-cases control_plane = inr refl

role_key_of : (c : Container) → role_key (some c) ≡ key_of_role c.role
role_key_of c = ground arith

zip_All :
    {A : Type 0} {P Q R S : A → Type 0} (f : (x : A) → P x → Q x → R x → S x) (xs : List A)
    → All P xs
    → All Q xs
    → All R xs
    → All S xs
zip_All f [] _ _ _ = tt
zip_All f (x ∷ xs) (p, ps) (q, qs) (r, rs) = (f x p q r, zip_All f xs ps qs rs)

role_key-found :
    (d : Container) (cs : List Container)
    → All (IsTold d) cs
    → any (λ c. ends_with c.name (full_name d.name)) cs ≡ true
    → role_key (find (λ c. ends_with c.name (full_name d.name)) cs) ≡ key_of_role d.role
role_key-found d [] _ h = cc
role_key-found d (c ∷ cs) (t, ts) h = elim (Bool-cases (ends_with c.name (full_name d.name))) [
  | inl e ↦
      rw e (elim t [ inl other ↦ absurd (cc) | inr same ↦ role_key_of c ∙ ap key_of_role same ])
  | inr n ↦ rw n (
      role_key-found d cs ts
        (ap (λ b. b || any (λ c. ends_with c.name (full_name d.name)) cs) (sym n) ∙ h))
]

-- Where the names tell the roles, a container is ordered by its own.
pub key_of-named :
    (cs : List Container) (f : Container → SutSpec)
    → All (λ d. (f d).name ≡ full_name d.name) cs
    → All (λ d. All (IsTold d) cs) cs
    → All (λ d. key_of cs (f d) ≡ key_of_role d.role) cs
unfolding key_of
key_of-named cs f names told =
    zip_All
      (λ d n any_here t.
        let found = role_key-found d cs t (
          any_here (λ c. ends_with c.name (full_name d.name))
            (ends_with-append (codes "spate-bench-sut-") d.name)) in
        rw n found)
      cs names (any_of_mem cs) told

module _ (key : SutSpec → ℕ) where
  insert_by-first : (s : SutSpec) (ts : List SutSpec) → key s ≡ 0 → insert_by key s ts ≡ s ∷ ts
  unfolding insert_by
  insert_by-first s [] h = refl
  insert_by-first s (t ∷ ts) h = ground arith

  insert_by-later :
      (s : SutSpec) (xs ys : List SutSpec)
      → key s ≡ 1
      → All (λ t. key t ≡ 0) xs
      → All (λ t. key t ≡ 1) ys
      → insert_by key s (xs ++ ys) ≡ xs ++ s ∷ ys
  unfolding insert_by
  insert_by-later s [] [] h _ _ = refl
  insert_by-later s [] (y ∷ ys) h _ (k, ks) = ground arith
  insert_by-later s (x ∷ xs) ys h (k, ks) l =
      let rest = insert_by-later s xs ys h ks l in ground arith

abbrev pub controls : List Container → List Container
controls = filter (λ c. not (is_data_plane c.role))

abbrev pub datas : List Container → List Container
datas = filter (λ c. is_data_plane c.role)

module _ (key : SutSpec → ℕ) (f : Container → SutSpec) where
  abbrev Keyed : Container → Type 0
  Keyed c = key (f c) ≡ key_of_role c.role

  controls-first : (cs : List Container) → All Keyed cs → All (λ t. key t ≡ 0) (map f (controls cs))
  controls-first [] _ = tt
  controls-first (c ∷ cs) (k, ks) = let rest = controls-first cs ks in ground arith

  datas-later : (cs : List Container) → All Keyed cs → All (λ t. key t ≡ 1) (map f (datas cs))
  datas-later [] _ = tt
  datas-later (c ∷ cs) (k, ks) = let rest = datas-later cs ks in ground arith

  -- The containers of the control plane first, each plane in the order of the descriptor.
  pub sort_by_key-planes :
      (cs : List Container)
      → All Keyed cs
      → sort_by_key key (map f cs) ≡ map f (controls cs) ++ map f (datas cs)
  unfolding sort_by_key
  sort_by_key-planes [] _ = refl
  sort_by_key-planes (c ∷ cs) (k, ks) =
      ap (insert_by key (f c)) (sort_by_key-planes cs ks) ∙ (elim (Role-cases c.role) [
        | inl e ↦
            let later =
              insert_by-later key (f c) (map f (controls cs)) (map f (datas cs))
                (k ∙ ap key_of_role e) (controls-first cs ks) (datas-later cs ks) in
            ground arith
        | inr e ↦
            let first =
              insert_by-first key (f c) (map f (controls cs) ++ map f (datas cs))
                (k ∙ ap key_of_role e) in
            ground arith
      ])
