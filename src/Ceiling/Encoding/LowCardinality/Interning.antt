-- ===== src/Ceiling/Encoding/LowCardinality/Interning.antt =====
-- What the dictionary of a column holds after its values are pushed.
use spate_benchmark.Prelude.{
  ℕ, zero, suc, ◌≤◌, Option, none, some, List, [], ◌∷◌, ◌++◌, ◌≡◌, refl, arith, length, get_elem?,
  All, All-append, text_eq, eq_of_text_eq, get_elem?-append_length, length-append, Bool-cases, inl,
  inr, subst, append_assoc, append-nil, sym, ap, ◌∙◌,
}
use spate_benchmark.Ceiling.Encoding.Varint.{Bytes}
use spate_benchmark.Ceiling.Encoding.LowCardinality.{
  Dictionary, new, position, push_found, push, push_all,
}

-- The entries at the indexes are the values.
abbrev pub Decodes : List Bytes → List ℕ → List Bytes → Type 0
Decodes es [] [] = Unit
Decodes es [] (v ∷ vs) = ⊥
Decodes es (i ∷ is) [] = ⊥
Decodes es (i ∷ is) (v ∷ vs) = (get_elem? es i ≡ some v) × Decodes es is vs

get_elem?_extend :
    (es ys : List Bytes) (i : ℕ) (v : Bytes)
    → get_elem? es i ≡ some v
    → get_elem? (es ++ ys) i ≡ some v
get_elem?_extend [] ys i v h = cc
get_elem?_extend (e ∷ es) ys zero v h = h
get_elem?_extend (e ∷ es) ys (suc i) v h = get_elem?_extend es ys i v h

Decodes-extend :
    (es ys : List Bytes) (is : List ℕ) (vs : List Bytes)
    → Decodes es is vs
    → Decodes (es ++ ys) is vs
Decodes-extend es ys [] [] _ = tt
Decodes-extend es ys [] (v ∷ vs) h = elim h [ ]
Decodes-extend es ys (i ∷ is) [] h = elim h [ ]
Decodes-extend es ys (i ∷ is) (v ∷ vs) (at, h) =
    (get_elem?_extend es ys i v at, Decodes-extend es ys is vs h)

Decodes-push :
    (es : List Bytes) (is : List ℕ) (vs : List Bytes) (i : ℕ) (v : Bytes)
    → Decodes es is vs
    → get_elem? es i ≡ some v
    → Decodes es (is ++ i ∷ []) (vs ++ v ∷ [])
Decodes-push es [] [] i v _ at = (at, tt)
Decodes-push es [] (w ∷ vs) i v h at = elim h [ ]
Decodes-push es (j ∷ is) [] i v h at = elim h [ ]
Decodes-push es (j ∷ is) (w ∷ vs) i v (here, h) at = (here, Decodes-push es is vs i v h at)

-- A dictionary that holds the values `vs`, with what bounds its size.
pub record Holds (P : Bytes → Type 0) (d : Dictionary) (vs : List Bytes) : Type 0 where
  pub known :
      (value : Bytes) (i : ℕ)
      → position value d.positions ≡ some i
      → get_elem? d.entries i ≡ some value
  pub decodes : Decodes d.entries d.indexes vs
  pub small : All P d.entries
  pub size : length d.entries ≤ suc (length vs)

module _ (P : Bytes → Type 0) where
  new-known :
      (value : Bytes) (i : ℕ)
      → position value new.positions ≡ some i
      → get_elem? new.entries i ≡ some value
  unfolding new position
  new-known value i h = elim (Bool-cases (text_eq [] value)) [
    | inl same ↦
        let zero_at : some 0 ≡ some i = rw same at h in
        let e : [] ≡ value = eq_of_text_eq [] value same in
        let z : 0 ≡ i = cc in subst (λ j. get_elem? ([] ∷ []) j ≡ some value) z (ap some e)
    | inr differ ↦ let bad : none ≡ some i = rw differ at h in cc
  ]

  new-Holds : P [] → Holds P new []
  unfolding new
  new-Holds p = record { known = new-known; decodes = tt; small = (p, tt); size = omega arith }

  push_found-Holds :
      (d : Dictionary) (vs : List Bytes) (value : Bytes) (o : Option ℕ)
      → position value d.positions ≡ o
      → Holds P d vs
      → P value
      → Holds P (push_found o d value) (vs ++ value ∷ [])
  unfolding push_found position
  push_found-Holds d vs value (some i) e h p = record {
    known = h.known;
    decodes = Decodes-push d.entries d.indexes vs i value h.decodes (h.known value i e);
    small = h.small;
    size = omega (arith, length-append vs (value ∷ []), h.size);
  }
  push_found-Holds d vs value none e h p =
      let es = d.entries ++ value ∷ [] in
      let last : get_elem? es (length d.entries) ≡ some value =
        get_elem?-append_length d.entries [] value in
      record {
        known = λ v i at. elim (Bool-cases (text_eq value v)) [
          | inl same ↦
              let here : some (length d.entries) ≡ some i = rw same at at in
              let named : value ≡ v = eq_of_text_eq value v same in
              let n : length d.entries ≡ i = cc in
              subst (λ j. get_elem? es j ≡ some v) n (last ∙ ap some named)
          | inr differ ↦ get_elem?_extend d.entries (value ∷ []) i v (h.known v i (rw differ at at))
        ];
        decodes =
            Decodes-push es d.indexes vs (length d.entries) value
              (Decodes-extend d.entries (value ∷ []) d.indexes vs h.decodes) last;
        small = All-append P d.entries (value ∷ []) h.small (p, tt);
        size =
            omega
              (arith, length-append vs (value ∷ []), length-append d.entries (value ∷ []), h.size);
      }

  push_all-Holds :
      (d : Dictionary) (ws vs : List Bytes)
      → Holds P d ws
      → All P vs
      → Holds P (push_all d vs) (ws ++ vs)
  unfolding push_all push
  push_all-Holds d ws [] h _ = subst (Holds P d) (sym (append-nil ws)) h
  push_all-Holds d ws (v ∷ vs) h (p, ps) =
      subst (Holds P (push_all (push d v) vs)) (append_assoc ws (v ∷ []) vs) (
        push_all-Holds (push d v) (ws ++ v ∷ []) vs
          (push_found-Holds d ws v (position v d.positions) refl h p) ps)

  -- Pushed onto a new dictionary, the entries at the indexes are the values in order, and there is
  -- at most one entry more than there are values.
  pub push_all-new : (vs : List Bytes) → P [] → All P vs → Holds P (push_all new vs) vs
  push_all-new vs p ps = push_all-Holds new [] vs (new-Holds p) ps
