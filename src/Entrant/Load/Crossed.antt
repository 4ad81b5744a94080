-- ===== src/Entrant/Load/Crossed.antt =====
-- What loaded entrants have in common: their orders are distinct, and their hues apart.
use spate_benchmark.Prelude.{
  ℕ, ◌+◌, ◌-◌, ◌≤◌, true, false, Option, none, some, List, [], ◌∷◌, map, Text, ltb, ◌≡◌, ◌≢◌, ◌⊎◌,
  ◌↔◌, inl, inr, refl, arith, All, All-map, append-nil_iff, Bool-cases,
}
use spate_benchmark.Prelude.Int.{ℤ}
use spate_benchmark.Entrant.Descriptor.{Entrant, id}
use spate_benchmark.Entrant.Validate.Parts.{report_if, report_if-nil}
use spate_benchmark.Entrant.Load.{
  close_hues, eq_ℤ, last_of, pair_lt, insert, sort, clash, check_gaps, check_orders, cross_check,
}

abbrev pub Pairwise {ℓ} : {A : Type ℓ} → (A → A → Type 0) → List A → Type 0
Pairwise R [] = Unit
Pairwise R (x ∷ xs) = All (R x) xs × Pairwise R xs

-- As numbers, which 355 and 5 are too.
abbrev pub Apart : ℕ × Text → ℕ × Text → Type 0
Apart h k = (h.0 + 20 ≤ k.0) ⊎ (k.0 + 20 ≤ h.0)

Apart-sym : (h k : ℕ × Text) → Apart h k → Apart k h
Apart-sym h k (inl a) = inr a
Apart-sym h k (inr a) = inl a

module _ (P : ℕ × Text → Type 0) where
  All-insert : (h : ℕ × Text) (ks : List (ℕ × Text)) → All P (insert h ks) ↔ (P h × All P ks)
  unfolding insert
  All-insert h [] = (λ a. a, λ a. a)
  All-insert h (k ∷ ks) =
      let (to, from) = All-insert h ks in
      elim (Bool-cases (pair_lt k h)) [
        | inl e ↦ rw e (λ (p, a). let (q, b) = to a in (q, (p, b)), λ (q, (p, b)). (p, from (q, b)))
        | inr n ↦ rw n (λ a. a, λ a. a)
      ]

Pairwise-insert :
    (h : ℕ × Text) (ks : List (ℕ × Text))
    → Pairwise Apart (insert h ks) ↔ (All (Apart h) ks × Pairwise Apart ks)
unfolding insert
Pairwise-insert h [] = (λ a. a, λ a. a)
Pairwise-insert h (k ∷ ks) = elim (Bool-cases (pair_lt k h)) [
  | inl e ↦
      let (to, from) = Pairwise-insert h ks in
      let (split, join) = All-insert (Apart k) h ks in
      rw e (
        λ (a, b). let (q, c) = split a in let (r, d) = to b in ((Apart-sym k h q, r), (c, d)),
        λ ((q, r), (c, d)). (join (Apart-sym h k q, c), from (r, d)),
      )
  | inr n ↦ rw n (λ a. a, λ a. a)
]

All-sort : (P : ℕ × Text → Type 0) (hs : List (ℕ × Text)) → All P (sort hs) ↔ All P hs
unfolding sort
All-sort P [] = (λ a. a, λ a. a)
All-sort P (h ∷ hs) =
    let (to, from) = All-sort P hs in
    let (split, join) = All-insert P h (sort hs) in
    (λ a. let (p, b) = split a in (p, to b), λ (p, b). join (p, from b))

Pairwise-sort : (hs : List (ℕ × Text)) → Pairwise Apart (sort hs) ↔ Pairwise Apart hs
unfolding sort
Pairwise-sort [] = (λ a. a, λ a. a)
Pairwise-sort (h ∷ hs) =
    let (to, from) = Pairwise-sort hs in
    let (split, join) = Pairwise-insert h (sort hs) in
    let (here, back) = All-sort (Apart h) hs in
    (λ a. let (p, b) = split a in (here p, to b), λ (p, b). join (back p, from b))

-- No hue is above a later one.
abbrev Ascending : List (ℕ × Text) → Type 0
Ascending [] = Unit
Ascending (h ∷ hs) = All (λ k. h.0 ≤ k.0) hs × Ascending hs

pair_lt-le : (h k : ℕ × Text) → pair_lt h k ≡ true → h.0 ≤ k.0
pair_lt-le (a, s) (b, t) e = ground arith

pair_lt-ge : (h k : ℕ × Text) → pair_lt h k ≡ false → k.0 ≤ h.0
pair_lt-ge (a, s) (b, t) e = ground arith

insert-Ascending : (h : ℕ × Text) (ks : List (ℕ × Text)) → Ascending ks → Ascending (insert h ks)
unfolding insert
insert-Ascending h [] _ = (tt, tt)
insert-Ascending h (k ∷ ks) (a, b) = elim (Bool-cases (pair_lt k h)) [
  | inl e ↦
      rw e ((All-insert (λ j. k.0 ≤ j.0) h ks).1 (pair_lt-le k h e, a), insert-Ascending h ks b)
  | inr n ↦
      let first = pair_lt-ge k h n in rw n ((first, All-map (λ j l. omega arith) ks a), (a, b))
]

sort-Ascending : (hs : List (ℕ × Text)) → Ascending (sort hs)
unfolding sort
sort-Ascending [] = tt
sort-Ascending (h ∷ hs) = insert-Ascending h (sort hs) (sort-Ascending hs)

module _ {F : Type 0} where
  -- Each hue is twenty below all later ones, where each is twenty below the next.
  gaps_split :
      (a b : ℕ) (s t : Text) (hs : List (ℕ × Text))
      → (check_gaps {F = F} ((a, s) ∷ (b, t) ∷ hs) ≡ [])
        ↔ ((a + 20 ≤ b) × (check_gaps {F = F} ((b, t) ∷ hs) ≡ []))
  unfolding check_gaps
  gaps_split a b s t hs =
      let (to, from) =
        append-nil_iff (report_if (ltb (b - a) 20) (close_hues a s b t))
          (check_gaps {F = F} ((b, t) ∷ hs)) in
      let (clear, gap) = report_if-nil (ltb (b - a) 20) (close_hues a s b t) in
      (
        λ e. let (p, q) = to e in let f = clear p in (ground arith, q),
        λ (p, q). let f : ltb (b - a) 20 ≡ false = ground arith in from (gap f, q),
      )

  -- Where each hue is twenty below the next, it is twenty below all later ones.
  gaps-below :
      (h : ℕ × Text) (hs : List (ℕ × Text))
      → check_gaps {F = F} (h ∷ hs) ≡ []
      → All (λ k. h.0 + 20 ≤ k.0) hs
  gaps-below h [] _ = tt
  gaps-below (a, s) ((b, t) ∷ hs) e =
      let (p, q) = (gaps_split a b s t hs).0 e in
      (p, All-map (λ k l. omega arith) hs (gaps-below (b, t) hs q))

  gaps-Pairwise :
      (hs : List (ℕ × Text)) → Ascending hs → (check_gaps {F = F} hs ≡ []) ↔ Pairwise Apart hs
  unfolding check_gaps
  gaps-Pairwise [] _ = (λ e. tt, λ p. refl)
  gaps-Pairwise (h ∷ []) _ = (λ e. (tt, tt), λ p. refl)
  gaps-Pairwise ((a, s) ∷ (b, t) ∷ hs) ((le, _), up) =
      let (to, from) = gaps-Pairwise ((b, t) ∷ hs) up in
      let (split, join) = gaps_split a b s t hs in
      (
        λ e.
            let (p, q) = split e in
            (All-map (λ k l. inl l) ((b, t) ∷ hs) (gaps-below (a, s) ((b, t) ∷ hs) e), to q),
        λ ((p, _), q).
            let far : a + 20 ≤ b = elim p [ inl l ↦ l | inr l ↦ absurd (omega arith) ] in
            join (far, from q),
      )

  -- The gaps of the sorted hues are clear exactly when every two hues differ by
  -- twenty or more as numbers.
  gaps-sort : (hs : List (ℕ × Text)) → (check_gaps {F = F} (sort hs) ≡ []) ↔ Pairwise Apart hs
  gaps-sort hs =
      let (to, from) = gaps-Pairwise (sort hs) (sort-Ascending hs) in
      let (there, back) = Pairwise-sort hs in (λ e. there (to e), λ p. from (back p))

eq_ℤ_iff : (a b : ℤ) → (eq_ℤ a b ≡ true) ↔ (a ≡ b)
eq_ℤ_iff a b = ground arith

last_of-none : (o : ℤ) (seen : List (ℤ × Text)) → (last_of o seen ≡ none) ↔ All (λ p. p.0 ≢ o) seen
unfolding last_of
last_of-none o [] = (λ e. tt, λ a. refl)
last_of-none o ((q, name) ∷ seen) =
    let (to, from) = last_of-none o seen in
    let (eq, same) = eq_ℤ_iff q o in
    elim (Bool-cases (eq_ℤ q o)) [
      | inl e ↦ rw e (λ h. cc, λ (n, a). absurd (n (eq e)))
      | inr n ↦ rw n (λ h. (λ x. let y = same x in cc, to h), λ (m, a). from a)
    ]

clash-nil :
    {F : Type 0} (o : ℤ) (prev : Option Text) (name : Text)
    → (clash {F = F} o prev name ≡ []) ↔ (prev ≡ none)
clash-nil o none name = (λ e. refl, λ e. refl)
clash-nil o (some p) name = (λ e. cc, λ e. cc)

All-both :
    {A : Type 0} (P Q : A → Type 0) (xs : List A) → All (λ x. P x × Q x) xs ↔ (All P xs × All Q xs)
All-both P Q [] = (λ a. (tt, tt), λ a. tt)
All-both P Q (x ∷ xs) =
    let (to, from) = All-both P Q xs in
    (
      λ ((p, q), a). let (b, c) = to a in ((p, b), (q, c)),
      λ ((p, b), (q, c)). ((p, q), from (b, c)),
    )

module _ {V : Type 0} where
  -- The order is none of those seen.
  abbrev IsNew : List (ℤ × Text) → Entrant V → Type 0
  IsNew seen e = All (λ p. p.0 ≢ e.spec.display.order) seen

  abbrev pub Differ : Entrant V → Entrant V → Type 0
  Differ d e = d.spec.display.order ≢ e.spec.display.order

  check_orders-nil :
      {F : Type 0} (seen : List (ℤ × Text)) (es : List (Entrant V))
      → (check_orders {F = F} seen es ≡ []) ↔ (All (IsNew seen) es × Pairwise Differ es)
  unfolding check_orders
  check_orders-nil seen [] = (λ e. (tt, tt), λ a. refl)
  check_orders-nil {F} seen (e ∷ es) =
      let o = e.spec.display.order in
      let (split, join) =
        append-nil_iff (clash {F = F} o (last_of o seen) (id e))
          (check_orders {F = F} ((o, id e) ∷ seen) es) in
      let (free, clear) = clash-nil {F = F} o (last_of o seen) (id e) in
      let (new, back) = last_of-none o seen in
      let (to, from) = check_orders-nil {F = F} ((o, id e) ∷ seen) es in
      let (apart, both) = All-both (Differ e) (IsNew seen) es in
      (
        λ h.
            let (p, q) = split h in
            let (a, b) = to q in let (c, d) = apart a in ((new (free p), d), (c, b)),
        λ ((n, d), (c, b)). join (clear (back n), from (both (c, d), b)),
      )

-- Before the first there is none.
none_seen : {V : Type 0} (es : List (Entrant V)) → All (IsNew []) es
none_seen [] = tt
none_seen (e ∷ es) = (tt, none_seen es)

abbrev pub hues : {V : Type 0} → List (Entrant V) → List (ℕ × Text)
hues es = map (λ e. (e.spec.display.hue, id e)) es

-- Nothing is reported across entrants exactly when no two have the same order and every two hues
-- differ by twenty or more as numbers.
pub cross_check-nil :
    {F V : Type 0} (es : List (Entrant V))
    → (cross_check {F = F} es ≡ []) ↔ (Pairwise Differ es × Pairwise Apart (hues es))
unfolding cross_check
cross_check-nil {F} es =
    let (split, join) =
      append-nil_iff (check_orders {F = F} [] es) (check_gaps {F = F} (sort (hues es))) in
    let (orders, ordered) = check_orders-nil {F = F} [] es in
    let (far, gaps) = gaps-sort {F = F} (hues es) in
    (
      λ h. let (p, q) = split h in ((orders p).1, far q),
      λ (p, q). join (ordered (none_seen es, p), gaps q),
    )
