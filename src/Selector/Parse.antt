-- ===== src/Selector/Parse.antt =====
-- `Selector::parse` and the `Display` of a selector.
mod Examples
use spate_benchmark.Prelude.{
  ℕ, Bool, true, false, not, Option, none, some, List, [], ◌∷◌, ◌++◌, Text, codes, ◌≡◌, ◌≢◌, refl,
  arith, any, is_empty, if◌then◌else◌, All, All-append, append-nil, append_assoc, subst, Bool-cases,
  inl, inr,
}
use spate_benchmark.Selector.{Selector}
use spate_benchmark.Selector.Split.{
  split_once, split, Lacks, Before, split_once-Before, split_once-append, split_once-Lacks,
  split_once_of_Lacks, split_of_Lacks, split-append, split-Lacks, split-All,
}

pub data ParseError : Type 0 where
  empty_image : Text → ParseError
  empty_component : Text → ParseError
  too_many_parts : Text → List Text → ParseError

pub data Result {ℓ} (A : Type ℓ) : Type ℓ where
  ok : A → Result A
  err : ParseError → Result A

abbrev pub star : Text
star = codes "*"

-- The parts of the body, which are at least one; `s` is the whole text, quoted in the errors.
shape : Text → List Text → Option Text → Result Selector
shape s (e ∷ []) image = ok (record { entrant = e; variant = star; image = image })
shape s (e ∷ v ∷ []) image = ok (record { entrant = e; variant = v; image = image })
shape s parts image = err (too_many_parts s parts)

read_body : Text → Text → Option Text → Result Selector
unfolding shape
read_body s body image =
    let parts = split b':' body in
    if any is_empty parts then err (empty_component s) else shape s parts image

read : Text → Option (Text × Text) → Result Selector
unfolding read_body
read s none = read_body s s none
read s (some (b, i)) = if is_empty i then err (empty_image s) else read_body s b (some i)

pub parse : Text → Result Selector
unfolding read
parse s = read s (split_once b'@' s)

abbrev with_image : Option Text → Text
with_image none = []
with_image (some i) = b'@' ∷ i

pub display : Selector → Text
display sel = sel.entrant ++ b':' ∷ (sel.variant ++ with_image sel.image)

-- A component of a selector: not empty, and free of the two separators.
pub record IsName (n : Text) : Type 0 where
  pub nonempty : is_empty n ≡ false
  pub no_colon : Lacks b':' n
  pub no_at : Lacks b'@' n

abbrev IsTag : Option Text → Type 0
IsTag none = Unit
IsTag (some i) = is_empty i ≡ false

pub record IsWellFormed (sel : Selector) : Type 0 where
  pub entrant : IsName sel.entrant
  pub variant : IsName sel.variant
  pub image : IsTag sel.image

abbrev Sound : Result Selector → Type 0
Sound (ok sel) = IsWellFormed sel
Sound (err e) = Unit

star-IsName : IsName star
star-IsName = record { nonempty = refl; no_colon = omega arith; no_at = omega arith }

shape-Sound :
    (s : Text) (parts : List Text) (image : Option Text)
    → any is_empty parts ≡ false
    → All (Lacks b':') parts
    → All (Lacks b'@') parts
    → IsTag image
    → Sound (shape s parts image)
unfolding shape
shape-Sound s [] image h c a t = tt
shape-Sound s (e ∷ []) image h (c, _) (a, _) t = record {
  entrant = record { nonempty = ground arith; no_colon = c; no_at = a };
  variant = star-IsName;
  image = t;
}
shape-Sound s (e ∷ v ∷ []) image h (c, (c', _)) (a, (a', _)) t = record {
  entrant = record { nonempty = ground arith; no_colon = c; no_at = a };
  variant = record { nonempty = ground arith; no_colon = c'; no_at = a' };
  image = t;
}
shape-Sound s (e ∷ v ∷ w ∷ ps) image h c a t = tt

read_body-Sound :
    (s body : Text) (image : Option Text)
    → Lacks b'@' body
    → IsTag image
    → Sound (read_body s body image)
unfolding read_body
read_body-Sound s body image lacks tag = elim (Bool-cases (any is_empty (split b':' body))) [
  | inl bad ↦ rw bad tt
  | inr good ↦ rw good (
      shape-Sound s (split b':' body) image good (split-Lacks b':' body)
        (split-All b':' (λ c. c ≢ b'@') body lacks) tag)
]

read-Sound :
    (s : Text) (o : Option (Text × Text))
    → split_once b'@' s ≡ o
    → Before b'@' s o
    → Sound (read s o)
unfolding read
read-Sound s none h b = read_body-Sound s s none (split_once-Lacks b'@' s h) tt
read-Sound s (some (b, [])) h _ = tt
read-Sound s (some (b, c ∷ i)) h (lacks, _) = read_body-Sound s b (some (c ∷ i)) lacks refl

-- A selector that `parse` returns is well-formed: both names are non-empty and free of the two
-- separators, and an image tag is not empty.
pub parse-IsWellFormed : (s : Text) {sel : Selector} → parse s ≡ ok sel → IsWellFormed sel
unfolding parse
parse-IsWellFormed s h =
    subst Sound h (read-Sound s (split_once b'@' s) refl (split_once-Before b'@' s))

two_names-Lacks :
    (sep : ℕ) (a b : Text) → b':' ≢ sep → Lacks sep a → Lacks sep b → Lacks sep (a ++ b':' ∷ b)
two_names-Lacks sep a b h ha hb = All-append (λ c. c ≢ sep) a (b':' ∷ b) ha (h, hb)

read_two_names :
    (s e v : Text) (image : Option Text)
    → IsName e
    → IsName v
    → read_body s (e ++ b':' ∷ v) image ≡ ok (record { entrant = e; variant = v; image = image })
unfolding read_body
read_two_names s e v image he hv =
    rw
      (
        split-append b':' e v he.no_colon,
        split_of_Lacks b':' v hv.no_colon,
        he.nonempty,
        hv.nonempty,
      )
      refl

parse_tagless :
    (e v : Text)
    → IsName e
    → IsName v
    → parse (e ++ b':' ∷ v) ≡ ok (record { entrant = e; variant = v; image = none })
unfolding parse
parse_tagless e v he hv =
    rw
      (split_once_of_Lacks b'@' (e ++ b':' ∷ v)
        (two_names-Lacks b'@' e v (omega arith) he.no_at hv.no_at))
      (read_two_names (e ++ b':' ∷ v) e v none he hv)

parse_tagged :
    (e v i : Text)
    → IsName e
    → IsName v
    → is_empty i ≡ false
    → parse ((e ++ b':' ∷ v) ++ b'@' ∷ i) ≡ ok (record { entrant = e; variant = v; image = some i })
unfolding parse
parse_tagged e v i he hv t =
    rw
      (split_once-append b'@' (e ++ b':' ∷ v) i
        (two_names-Lacks b'@' e v (omega arith) he.no_at hv.no_at))
      (unfold read in rw t (read_two_names ((e ++ b':' ∷ v) ++ b'@' ∷ i) e v (some i) he hv))

-- A well-formed selector is read back from its display.
pub parse-display : (sel : Selector) → IsWellFormed sel → parse (display sel) ≡ ok sel
unfolding display
parse-display sel w = go sel.image w.image
  where
    go :
        (image : Option Text)
        → IsTag image
        → parse (sel.entrant ++ b':' ∷ (sel.variant ++ with_image image))
          ≡ ok (record { entrant = sel.entrant; variant = sel.variant; image = image })
    go none t = rw append-nil (parse_tagless sel.entrant sel.variant w.entrant w.variant)
    go (some i) t =
        rw (← append_assoc sel.entrant (b':' ∷ sel.variant) (b'@' ∷ i))
          (parse_tagged sel.entrant sel.variant i w.entrant w.variant t)

-- Three names between colons are refused, whatever the names are: there is no version position.
pub parse_version_position :
    (a b c : Text)
    → IsName a
    → IsName b
    → IsName c
    → parse (a ++ b':' ∷ (b ++ b':' ∷ c))
      ≡ err (too_many_parts (a ++ b':' ∷ (b ++ b':' ∷ c)) (a ∷ b ∷ c ∷ []))
unfolding parse read_body
parse_version_position a b c ha hb hc =
    rw
      (split_once_of_Lacks b'@' (a ++ b':' ∷ (b ++ b':' ∷ c)) (
        two_names-Lacks b'@' a (b ++ b':' ∷ c) (omega arith) ha.no_at
          (two_names-Lacks b'@' b c (omega arith) hb.no_at hc.no_at)))
      (rw
        (
          split-append b':' a (b ++ b':' ∷ c) ha.no_colon,
          split-append b':' b c hb.no_colon,
          split_of_Lacks b':' c hc.no_colon,
          ha.nonempty,
          hb.nonempty,
          hc.nonempty,
        )
        refl)
