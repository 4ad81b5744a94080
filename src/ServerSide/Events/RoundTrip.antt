-- ===== src/ServerSide/Events/RoundTrip.antt =====
-- The counters that the server renders are those that are read.
use spate_benchmark.Prelude.{
  ℕ, ◌<◌, ◌^◌, ◌≢◌, Bool, false, Option, some, List, [], ◌∷◌, ◌++◌, map, Text, ◌≡◌, refl, ap, ◌∙◌,
  arith, All, All-append, All-map, if◌then◌else◌,
}
use spate_benchmark.Prelude.Strings.{is_whitespace, trim, is_blank, parse_u64}
use spate_benchmark.Prelude.Strings.Trimmed.{
  IsSolid, trim_between, trim_of_solid, strip_prefix-char, strip_suffix-char,
}
use spate_benchmark.Selector.Split.{split, Lacks, split_once-append, split-append, split_of_Lacks}
use spate_benchmark.Corpus.Decimal.{decimal}
use spate_benchmark.Corpus.Decimal.Parsed.{IsDigit, decimal-IsNumber, parse_u64-decimal}
use spate_benchmark.ServerSide.{Result, ok, err, ProfileCounters}
use spate_benchmark.ServerSide.Events.{
  no_counters, store, strip_last, strip_around, entry_value, entry_parts, entry, visit, parse_body,
  parse_profile_events,
}

-- What the server renders: a counter's name and its value.
abbrev pub Entry : Type 0
Entry = Text × ℕ

abbrev pub render_entry : Entry → Text
render_entry (k, v) = ((b'\'' ∷ k) ++ b'\'' ∷ []) ++ b':' ∷ decimal v

abbrev pub render_body : List Entry → Text
render_body [] = []
render_body (e ∷ []) = render_entry e
render_body (e ∷ f ∷ es) = render_entry e ++ b',' ∷ render_body (f ∷ es)

-- `{'Key':123,'Other':456}`
abbrev pub render : List Entry → Text
render es = (b'{' ∷ render_body es) ++ b'}' ∷ []

abbrev pub store_all : ProfileCounters → List Entry → ProfileCounters
store_all out [] = out
store_all out ((k, v) ∷ es) = store_all (store out k v) es

-- A name without the separators of the map, and a `u64`.
abbrev pub IsEntry : Entry → Type 0
IsEntry (k, v) = Lacks b':' k × Lacks b',' k × (v < 2 ^ 64)

decimal-All : (P : ℕ → Type 0) → ((c : ℕ) → IsDigit c → P c) → (n : ℕ) → All P (decimal n)
decimal-All P f n = All-map f (decimal n) ((decimal-IsNumber n).all_digits)

digit-IsSolid : (c : ℕ) → IsDigit c → IsSolid c
unfolding is_whitespace
digit-IsSolid c h = ground (arith, h)

strip_around-char : (a b : ℕ) (s : Text) → strip_around a b ((a ∷ s) ++ b ∷ []) ≡ some s
unfolding strip_around strip_last
strip_around-char a b s =
    ap (strip_last b) (strip_prefix-char a (s ++ b ∷ [])) ∙ strip_suffix-char b s

quoted-Lacks : (b : ℕ) (k : Text) → b'\'' ≢ b → Lacks b k → Lacks b ((b'\'' ∷ k) ++ b'\'' ∷ [])
quoted-Lacks b k n h = (n, All-append (λ c. c ≢ b) k (b'\'' ∷ []) h (n, tt))

entry-render : (field : Text) (e : Entry) → IsEntry e → entry field (render_entry e) ≡ ok e
unfolding entry entry_parts entry_value is_whitespace
entry-render field (k, v) (colon, comma, bound) =
    ap (entry_parts field) (
      split_once-append b':' ((b'\'' ∷ k) ++ b'\'' ∷ []) (decimal v)
        (quoted-Lacks b':' k (λ e. absurd (omega arith)) colon))
    ∙ ap
        (λ (t : Text).
          entry_value field (strip_around b'\'' b'\'' t) (parse_u64 (trim (decimal v))))
        (trim_between b'\'' b'\'' k refl refl)
    ∙ ap (λ (o : Option Text). entry_value field o (parse_u64 (trim (decimal v))))
        (strip_around-char b'\'' b'\'' k)
    ∙ ap (λ (t : Text). entry_value field (some k) (parse_u64 t))
        (trim_of_solid (decimal v) (decimal-All IsSolid digit-IsSolid v))
    ∙ ap (entry_value field (some k)) (parse_u64-decimal v bound)

render_entry-Lacks : (e : Entry) → IsEntry e → Lacks b',' (render_entry e)
render_entry-Lacks (k, v) (colon, comma, bound) =
    All-append (λ c. c ≢ b',') ((b'\'' ∷ k) ++ b'\'' ∷ []) (b':' ∷ decimal v)
      (quoted-Lacks b',' k (λ e. absurd (omega arith)) comma)
      (λ e. absurd (omega arith), decimal-All (λ c. c ≢ b',') (λ c d e. absurd (omega arith)) v)

split-render :
    (e : Entry) (es : List Entry)
    → All IsEntry (e ∷ es)
    → split b',' (render_body (e ∷ es)) ≡ map render_entry (e ∷ es)
split-render e [] (h, hs) = split_of_Lacks b',' (render_entry e) (render_entry-Lacks e h)
split-render e (f ∷ es) (h, hs) =
    split-append b',' (render_entry e) (render_body (f ∷ es)) (render_entry-Lacks e h)
    ∙ ap (λ ps. render_entry e ∷ ps) (split-render f es hs)

visit-render :
    (field : Text) (out : ProfileCounters) (es : List Entry)
    → All IsEntry es
    → visit field out (map render_entry es) ≡ ok (store_all out es)
unfolding visit
visit-render field out [] h = refl
visit-render field out ((k, v) ∷ es) (h, hs) =
    ap
      (λ (r : Result Entry). elim r [
        | err refusal ↦ err refusal
        | ok (key, value) ↦ visit field (store out key value) (map render_entry es)
      ])
      (entry-render field (k, v) h)
    ∙ visit-render field (store out k v) es hs

render_body-solid : (e : Entry) (es : List Entry) → is_blank (render_body (e ∷ es)) ≡ false
unfolding is_blank is_whitespace
render_body-solid e [] = refl
render_body-solid e (f ∷ es) = refl

body_read :
    (field : Text) (e : Entry) (es : List Entry) {r : Result ProfileCounters}
    → visit field no_counters (split b',' (render_body (e ∷ es))) ≡ r
    → parse_body field (some (render_body (e ∷ es))) ≡ r
unfolding parse_body
body_read field e es h =
    ap
      (λ (b : Bool).
        if b then ok no_counters else visit field no_counters (split b',' (render_body (e ∷ es))))
      (render_body-solid e es)
    ∙ h

parse_body-render :
    (field : Text) (es : List Entry)
    → All IsEntry es
    → parse_body field (some (render_body es)) ≡ ok (store_all no_counters es)
unfolding parse_body is_blank
parse_body-render field [] h = refl
parse_body-render field (e ∷ es) h =
    let listed = ap (visit field no_counters) (split-render e es h) in
    body_read field e es (listed ∙ visit-render field no_counters (e ∷ es) h)

-- The map of counters that the server renders, `{'Key':123,'Other':456}`, is read as the counters
-- stored one after the other, where the names hold no colon and no comma and the values are of 64 bits.
pub parse_profile_events-render :
    (es : List Entry)
    → All IsEntry es
    → parse_profile_events (render es) ≡ ok (store_all no_counters es)
unfolding parse_profile_events is_whitespace
parse_profile_events-render es h =
    let field = render es in
    ap (λ (t : Text). parse_body field (strip_around b'{' b'}' t))
      (trim_between b'{' b'}' (render_body es) refl refl)
    ∙ ap (parse_body field) (strip_around-char b'{' b'}' (render_body es))
    ∙ parse_body-render field es h
