-- ===== src/Entrant/Placeholders/Template.antt =====
-- Values with placeholders: the tokens of a text that is written as characters and placeholders.
use spate_benchmark.Prelude.{ℕ, some, List, [], ◌∷◌, ◌++◌, Text, ◌≡◌, ◌≢◌, refl, ap, ◌∙◌, arith}
use spate_benchmark.Selector.Split.{Lacks}
use spate_benchmark.Entrant.Placeholders.{opened, closed, outside, Token, placeholder_tokens}
use spate_benchmark.Entrant.Placeholders.Tokens.{inside-closed}

pub data Part : Type 0 where
  char : ℕ → Part
  hole : Text → Part

abbrev pub print : List Part → Text
print [] = []
print (char c ∷ ps) = c ∷ print ps
print (hole inner ∷ ps) = opened (inner ++ b'}' ∷ b'}' ∷ print ps)

-- The texts between the braces.
abbrev pub holes : List Part → List Text
holes [] = []
holes (char c ∷ ps) = holes ps
holes (hole inner ∷ ps) = inner ∷ holes ps

abbrev pub IsName : Text → Type 0
IsName inner = Lacks b'{' inner × Lacks b'}' inner

-- No opening brace outside of the placeholders, and no brace in their names.
abbrev pub IsTemplate : List Part → Type 0
IsTemplate [] = Unit
IsTemplate (char c ∷ ps) = (c ≢ b'{') × IsTemplate ps
IsTemplate (hole inner ∷ ps) = IsName inner × IsTemplate ps

abbrev pub tokens : List Text → List Token
tokens [] = []
tokens (inner ∷ is) = (closed inner, some inner) ∷ tokens is

outside-char : (c : ℕ) (s : Text) → c ≢ b'{' → outside (c ∷ s) ≡ outside s
unfolding outside
outside-char c [] h = refl
outside-char c (d ∷ s) h = ground arith

outside-print : (ps : List Part) → IsTemplate ps → outside (print ps) ≡ tokens (holes ps)
unfolding outside
outside-print [] _ = refl
outside-print (char c ∷ ps) (h, hs) = outside-char c (print ps) h ∙ outside-print ps hs
outside-print (hole inner ∷ ps) ((_, h), hs) =
    inside-closed [] inner (print ps) h
    ∙ ap (λ ts. (closed inner, some inner) ∷ ts) (outside-print ps hs)

-- The tokens of a template are its placeholders, in order.
pub tokens-print :
    (ps : List Part) → IsTemplate ps → placeholder_tokens (print ps) ≡ tokens (holes ps)
unfolding placeholder_tokens
tokens-print ps h = outside-print ps h
