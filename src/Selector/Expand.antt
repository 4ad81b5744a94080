-- ===== src/Selector/Expand.antt =====
-- `expand` of harness/src/select.rs: which arms a command acts on.
pub mod Selected
pub mod Complete
mod Examples
use spate_benchmark.Prelude.{
  ℕ, zero, suc, ◌+◌, Bool, true, false, not, Option, none, some, List, [], ◌∷◌, ◌++◌, Text, ◌≡◌,
  refl, arith, any, ◌==◌, ◌&&◌, ◌||◌, if◌then◌else◌, text_eq,
}
use spate_benchmark.Entrant.Descriptor.{Entrant, Variant, id, is_runnable}
use spate_benchmark.Selector.{Selector}
use spate_benchmark.Selector.Parse.{star}

pub matches_entrant : Selector → Text → Bool
matches_entrant sel i = text_eq sel.entrant star || text_eq sel.entrant i

pub matches_variant : Selector → Text → Bool
matches_variant sel i = text_eq sel.variant star || text_eq sel.variant i

pub record Arm (V : Type 0) : Type 0 where
  pub entrant : Entrant V
  pub variant : Variant V
  pub image : Option Text

pub data ExpandError : Type 0 where
  no_entrant : Text → List Text → ExpandError
  matched_nothing : Selector → ExpandError

pub data Expansion (V : Type 0) : Type 0 where
  arms : List (Arm V) → Expansion V
  refused : ExpandError → Expansion V

-- What the loops of `expand` change: the arms so far, and the hits of the selector at hand.
pub record Progress (V : Type 0) : Type 0 where
  pub out : List (Arm V)
  pub hits : ℕ

module _ {V : Type 0} where
  -- `a.entrant.id() == e.id() && a.variant.id == v.id`
  abbrev pub is_same : Entrant V → Variant V → Arm V → Bool
  is_same e v a = text_eq (id a.entrant) (id e) && text_eq a.variant.id v.id

  pub visit_variant : Selector → Entrant V → Progress V → Variant V → Progress V
  visit_variant sel e p v = if not (matches_variant sel v.id) then p else record {
    out =
        if any (is_same e v) p.out
        then p.out
        else p.out ++ record { entrant = e; variant = v; image = sel.image } ∷ [];
    hits = p.hits + 1;
  }

  pub visit_variants : Selector → Entrant V → Progress V → List (Variant V) → Progress V
  visit_variants sel e p [] = p
  visit_variants sel e p (v ∷ vs) = visit_variants sel e (visit_variant sel e p v) vs

  pub visit_entrant : Selector → Progress V → Entrant V → Progress V
  visit_entrant sel p e =
      if not (is_runnable e.spec.entrant.status) || not (matches_entrant sel (id e))
      then p
      else visit_variants sel e p e.spec.variants

  pub visit_entrants : Selector → Progress V → List (Entrant V) → Progress V
  visit_entrants sel p [] = p
  visit_entrants sel p (e ∷ es) = visit_entrants sel (visit_entrant sel p e) es

  abbrev map_id : List (Entrant V) → List Text
  map_id [] = []
  map_id (e ∷ es) = id e ∷ map_id es

  pub names_unknown : List (Entrant V) → Selector → Bool
  names_unknown entrants sel =
      not (text_eq sel.entrant star) && not (any (λ e. text_eq (id e) sel.entrant) entrants)

  pub expand_from : List (Entrant V) → List (Arm V) → List Selector → Expansion V
  expand_from entrants out [] = arms out
  expand_from entrants out (sel ∷ rest) =
      let p = visit_entrants sel (record { out = out; hits = 0 }) entrants in
      let next = expand_from entrants p.out rest in
      if names_unknown entrants sel
      then refused (no_entrant sel.entrant (map_id entrants))
      else if p.hits == 0
      then refused (matched_nothing sel)
      else next

  pub expand : List (Entrant V) → List Selector → Expansion V
  unfolding expand_from
  expand entrants selectors = expand_from entrants [] selectors
