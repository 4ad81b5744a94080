-- ===== src/Ceiling/File/Merged.antt =====
-- What `Ceilings::merge` leaves under each format.
use spate_benchmark.Prelude.{
  true, Option, some, List, [], ◌∷◌, Text, text_eq, if◌then◌else◌, ◌≡◌, refl, arith, find,
  Bool-cases, inl, inr, eq_of_text_eq, text_eq_refl, sym, subst, ap, ◌∙◌,
}
use spate_benchmark.Ceiling.File.{
  IngestCeiling, Ceilings, Pass, text_le, put, put_all, insert, sort, merge,
}

text_le_refl : (s : Text) → text_le s s ≡ true
unfolding text_le
text_le_refl [] = refl
text_le_refl (x ∷ s) = ground (arith, text_le_refl s)

module _ {F : Type 0} where
  abbrev pub find_format : Text → List (IngestCeiling F) → Option (IngestCeiling F)
  find_format f cs = find (λ c. text_eq c.format f) cs

  -- The first choice where its format is the one asked for.
  abbrev pub choose : Text → IngestCeiling F → Option (IngestCeiling F) → Option (IngestCeiling F)
  choose f c o = if text_eq c.format f then some c else o

  -- The last of the measured entries with the format, or what there was before.
  abbrev pub latest :
      Text → List (IngestCeiling F) → Option (IngestCeiling F) → Option (IngestCeiling F)
  latest f [] o = o
  latest f (m ∷ ms) o = latest f ms (choose f m o)

  formats_agree :
      (f : Text) (a b : IngestCeiling F)
      → text_eq a.format f ≡ true
      → text_eq b.format f ≡ true
      → a.format ≡ b.format
  formats_agree f a b ha hb = eq_of_text_eq a.format f ha ∙ sym (eq_of_text_eq b.format f hb)

  find_format-insert :
      (f : Text) (c : IngestCeiling F) (ds : List (IngestCeiling F))
      → find_format f (insert c ds) ≡ choose f c (find_format f ds)
  unfolding insert
  find_format-insert f c [] = refl
  find_format-insert f c (d ∷ ds) = elim (Bool-cases (text_le c.format d.format)) [
    | inl le ↦ rw le refl
    | inr gt ↦ rw gt (elim (Bool-cases (text_eq d.format f)) [
      | inr other ↦ rw other (find_format-insert f c ds)
      | inl d_here ↦ elim (Bool-cases (text_eq c.format f)) [
        | inr other ↦ rw (d_here, other) refl
        | inl c_here ↦
            let e : c.format ≡ d.format = formats_agree f c d c_here d_here in
            let le : text_le c.format d.format ≡ true =
              subst (λ t. text_le c.format t ≡ true) e (text_le_refl c.format) in
            cc
      ]
    ])
  ]

  find_format-sort :
      (f : Text) (cs : List (IngestCeiling F)) → find_format f (sort cs) ≡ find_format f cs
  unfolding sort
  find_format-sort f [] = refl
  find_format-sort f (c ∷ cs) =
      find_format-insert f c (sort cs) ∙ ap (choose f c) (find_format-sort f cs)

  find_format-put :
      (f : Text) (cs : List (IngestCeiling F)) (m : IngestCeiling F)
      → find_format f (put cs m) ≡ choose f m (find_format f cs)
  unfolding put
  find_format-put f [] m = refl
  find_format-put f (c ∷ cs) m = elim (Bool-cases (text_eq c.format m.format)) [
    | inl same ↦ rw same (
        rw (eq_of_text_eq c.format m.format same)
          (elim (Bool-cases (text_eq m.format f)) [ inl h ↦ rw h refl | inr h ↦ rw h refl ]))
    | inr differ ↦ rw differ (elim (Bool-cases (text_eq c.format f)) [
      | inr other ↦ rw other (find_format-put f cs m)
      | inl c_here ↦ elim (Bool-cases (text_eq m.format f)) [
        | inr other ↦ rw (c_here, other) refl
        | inl m_here ↦
            let e : c.format ≡ m.format = formats_agree f c m c_here m_here in
            let same : text_eq c.format m.format ≡ true =
              subst (λ t. text_eq c.format t ≡ true) e (text_eq_refl c.format) in
            cc
      ]
    ])
  ]

  find_format-put_all :
      (f : Text) (ms cs : List (IngestCeiling F))
      → find_format f (put_all cs ms) ≡ latest f ms (find_format f cs)
  unfolding put_all
  find_format-put_all f [] cs = refl
  find_format-put_all f (m ∷ ms) cs =
      find_format-put_all f ms (put cs m) ∙ ap (latest f ms) (find_format-put f cs m)

  -- After a merge the entry found under a format is the last one that the pass measured for it; a
  -- format that the pass did not measure keeps the entry it had.
  pub find_format-merge :
      (f : Text) (cs : Ceilings F) (pass : Pass F)
      → find_format f (merge cs pass).clickhouse
        ≡ latest f pass.ingest (find_format f cs.clickhouse)
  unfolding merge
  find_format-merge f cs pass =
      find_format-sort f (put_all cs.clickhouse pass.ingest)
      ∙ find_format-put_all f pass.ingest cs.clickhouse
