-- ===== src/Entrant/Placeholders/Tokens.antt =====
-- The tokens of a text without braces, and of one placeholder.
use spate_benchmark.Prelude.{
  ℕ, some, [], ◌∷◌, ◌++◌, Text, ◌≡◌, ◌≢◌, refl, ap, sym, ◌∙◌, arith, append_assoc, append-nil,
}
use spate_benchmark.Selector.Split.{Lacks}
use spate_benchmark.Entrant.Placeholders.{opened, closed, outside, inside, placeholder_tokens}

pub outside-Lacks : (s : Text) → Lacks b'{' s → outside s ≡ []
unfolding outside
outside-Lacks [] _ = refl
outside-Lacks (c ∷ []) _ = refl
outside-Lacks (c ∷ d ∷ s) (h, hs) = ground (arith, outside-Lacks (d ∷ s) hs)

outside-skip : (pre s : Text) → Lacks b'{' pre → outside (pre ++ b'{' ∷ s) ≡ outside (b'{' ∷ s)
unfolding outside
outside-skip [] s _ = refl
outside-skip (c ∷ []) s (h, hs) = ground (arith, outside-skip [] s hs)
outside-skip (c ∷ d ∷ pre) s (h, hs) = ground (arith, outside-skip (d ∷ pre) s hs)

pub outside-open : (s : Text) → outside (opened s) ≡ inside [] s
unfolding outside
outside-open s = refl

-- A character that is no closing brace is taken into the body.
inside-step :
    (acc : Text) (c : ℕ) (inner post : Text)
    → c ≢ b'}'
    → inside acc ((c ∷ inner) ++ b'}' ∷ b'}' ∷ post)
      ≡ inside (acc ++ c ∷ []) (inner ++ b'}' ∷ b'}' ∷ post)
unfolding inside
inside-step acc c [] post h = ground arith
inside-step acc c (d ∷ inner) post h = ground arith

pub inside-closed :
    (acc inner post : Text)
    → Lacks b'}' inner
    → inside acc (inner ++ b'}' ∷ b'}' ∷ post)
      ≡ (closed (acc ++ inner), some (acc ++ inner)) ∷ outside post
unfolding inside
inside-closed acc [] post _ = ap (λ k. (closed k, some k) ∷ outside post) (sym (append-nil acc))
inside-closed acc (c ∷ inner) post (h, hs) =
    inside-step acc c inner post h
    ∙ inside-closed (acc ++ c ∷ []) inner post hs
    ∙ ap (λ k. (closed k, some k) ∷ outside post) (append_assoc acc (c ∷ []) inner)

pub tokens-Lacks : (s : Text) → Lacks b'{' s → placeholder_tokens s ≡ []
unfolding placeholder_tokens
tokens-Lacks s h = outside-Lacks s h

-- One placeholder between texts without an opening brace is the one token.
pub tokens_one :
    (pre inner post : Text)
    → Lacks b'{' pre
    → Lacks b'}' inner
    → Lacks b'{' post
    → placeholder_tokens (pre ++ opened (inner ++ b'}' ∷ b'}' ∷ post))
      ≡ (closed inner, some inner) ∷ []
unfolding placeholder_tokens
tokens_one pre inner post hp hi hq =
    outside-skip pre (b'{' ∷ (inner ++ b'}' ∷ b'}' ∷ post)) hp
    ∙ outside-open (inner ++ b'}' ∷ b'}' ∷ post)
    ∙ inside-closed [] inner post hi
    ∙ ap (λ ts. (closed inner, some inner) ∷ ts) (outside-Lacks post hq)
