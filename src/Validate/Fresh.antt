-- ===== src/Validate/Fresh.antt =====
-- The run ids that the walk of harness/src/validate.rs has seen.
use spate_benchmark.Prelude.{
  false, none, some, List, [], ◌∷◌, ◌++◌, Text, ◌≡◌, refl, text_eq, any, Bool-cases, inl, inr,
}
use spate_benchmark.Report.{Report}
use spate_benchmark.Validate.{Site, seen_at}

abbrev pub keys : List (Text × Site) → List Text
keys [] = []
keys ((id, at) ∷ rest) = id ∷ keys rest

pub seen_at-none :
    (id : Text) (seen : List (Text × Site))
    → seen_at id seen ≡ none
    → any (λ key. text_eq key id) (keys seen) ≡ false
unfolding seen_at
seen_at-none id [] h = refl
seen_at-none id ((key, at) ∷ rest) h = elim (Bool-cases (text_eq key id)) [
  | inl here ↦ let bad : some at ≡ none = rw here at h in cc
  | inr other ↦ rw other (seen_at-none id rest (rw other at h))
]

module _ {F V : Type 0} where
  -- The ids known after these records, the newest first.
  abbrev pub after : List (Report F V) → List Text → List Text
  after [] ids = ids
  after (r ∷ rs) ids = after rs (r.run_id ∷ ids)

  -- No record has an id that is known, or that a record before it has.
  abbrev pub Fresh : List Text → List (Report F V) → Type 0
  Fresh ids [] = Unit
  Fresh ids (r ∷ rs) = (any (λ id. text_eq id r.run_id) ids ≡ false) × Fresh (r.run_id ∷ ids) rs

  pub Fresh-append :
      (ids : List Text) (rs ts : List (Report F V))
      → Fresh ids rs
      → Fresh (after rs ids) ts
      → Fresh ids (rs ++ ts)
  Fresh-append ids [] ts _ h = h
  Fresh-append ids (r ∷ rs) ts (new_id, fresh) h =
      (new_id, Fresh-append (r.run_id ∷ ids) rs ts fresh h)

  pub after-append :
      (ids : List Text) (rs ts : List (Report F V)) → after ts (after rs ids) ≡ after (rs ++ ts) ids
  after-append ids [] ts = refl
  after-append ids (r ∷ rs) ts = after-append (r.run_id ∷ ids) rs ts
