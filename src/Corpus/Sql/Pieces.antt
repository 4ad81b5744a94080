-- ===== src/Corpus/Sql/Pieces.antt =====
-- A script as pieces: what ends a statement, and what passes through.
use spate_benchmark.Prelude.{
  ℕ, true, false, List, [], ◌∷◌, ◌++◌, Text, ◌≡◌, ◌≢◌, refl, ap, ◌∙◌, ◌⊎◌, inl, inr, arith,
  append_assoc,
}
use spate_benchmark.Prelude.Strings.{trim, trim_start, trim_end}
use spate_benchmark.Selector.Split.{Lacks}
use spate_benchmark.Corpus.Sql.{outside, quoted, comment, flush, is_quote, scan, split_sql}

-- A character inside quotes: itself, one behind a backslash, or the delimiter written twice.
pub data Inner : Type 0 where
  plain : ℕ → Inner
  behind : ℕ → Inner
  twice : Inner

pub data Piece : Type 0 where
  char : ℕ → Piece
  quote : ℕ → List Inner → Piece
  line : Text → Piece
  semicolon : Piece

abbrev pub print_inner : ℕ → List Inner → Text
print_inner q [] = []
print_inner q (plain c ∷ us) = c ∷ print_inner q us
print_inner q (behind c ∷ us) = b'\\' ∷ c ∷ print_inner q us
print_inner q (twice ∷ us) = q ∷ q ∷ print_inner q us

abbrev pub print : Piece → Text
print (char c) = c ∷ []
print (quote q us) = q ∷ (print_inner q us ++ q ∷ [])
print (line body) = b'-' ∷ b'-' ∷ (body ++ 10 ∷ [])
print semicolon = b';' ∷ []

abbrev pub print_all : List Piece → Text
print_all [] = []
print_all (p ∷ ps) = print p ++ print_all ps

-- A comment leaves its line end.
abbrev pub statements : Text → List Piece → List Text
statements buf [] = flush buf []
statements buf (char c ∷ ps) = statements (buf ++ c ∷ []) ps
statements buf (quote q us ∷ ps) = statements (buf ++ print (quote q us)) ps
statements buf (line body ∷ ps) = statements (buf ++ 10 ∷ []) ps
statements buf (semicolon ∷ ps) = flush buf (statements [] ps)

abbrev pub IsInner : ℕ → List Inner → Type 0
IsInner q [] = Unit
IsInner q (plain c ∷ us) = (c ≢ q) × (c ≢ b'\\') × IsInner q us
IsInner q (behind c ∷ us) = IsInner q us
IsInner q (twice ∷ us) = IsInner q us

-- The text does not start with the delimiter.
abbrev pub StartsNot : ℕ → Text → Type 0
StartsNot q [] = Unit
StartsNot q (d ∷ s) = d ≢ q

-- Characters that mean nothing else, a dash before no other; closed quotes that are not joined to the
-- next; and comments of one line.
abbrev pub IsScript : List Piece → Type 0
IsScript [] = Unit
IsScript (char c ∷ ps) =
    (is_quote c ≡ false) × (c ≢ b';') × (c ≢ b'-' ⊎ StartsNot b'-' (print_all ps)) × IsScript ps
IsScript (quote q us ∷ ps) =
    (is_quote q ≡ true) × IsInner q us × StartsNot q (print_all ps) × IsScript ps
IsScript (line body ∷ ps) = Lacks 10 body × IsScript ps
IsScript (semicolon ∷ ps) = IsScript ps

scan-char :
    (buf : Text) (c : ℕ) (t : Text)
    → is_quote c ≡ false
    → c ≢ b';'
    → c ≢ b'-' ⊎ StartsNot b'-' t
    → scan outside buf (c ∷ t) ≡ scan outside (buf ++ c ∷ []) t
unfolding scan
scan-char buf c [] h a b = ground arith
scan-char buf c (d ∷ t) h a (inl n) = ground arith
scan-char buf c (d ∷ t) h a (inr n) = ground arith

scan-open :
    (buf : Text) (q : ℕ) (t : Text)
    → is_quote q ≡ true
    → scan outside buf (q ∷ t) ≡ scan (quoted q) (buf ++ q ∷ []) t
unfolding scan
scan-open buf q [] h = ground arith
scan-open buf q (d ∷ t) h = ground arith

scan-semicolon : (buf t : Text) → scan outside buf (b';' ∷ t) ≡ flush buf (scan outside [] t)
unfolding scan flush trim trim_start trim_end
scan-semicolon buf [] = refl
scan-semicolon buf (d ∷ t) = refl

scan-plain :
    (q : ℕ) (buf : Text) (c : ℕ) (t : Text)
    → c ≢ q
    → c ≢ b'\\'
    → scan (quoted q) buf (c ∷ t) ≡ scan (quoted q) (buf ++ c ∷ []) t
unfolding scan
scan-plain q buf c [] h k = refl
scan-plain q buf c (d ∷ t) h k = ground arith

scan-twice :
    (q : ℕ) (buf t : Text)
    → is_quote q ≡ true
    → scan (quoted q) buf (q ∷ q ∷ t) ≡ scan (quoted q) (buf ++ q ∷ q ∷ []) t
unfolding scan
scan-twice q buf t h = ground arith

scan-close :
    (q : ℕ) (buf t : Text)
    → is_quote q ≡ true
    → StartsNot q t
    → scan (quoted q) buf (q ∷ t) ≡ scan outside (buf ++ q ∷ []) t
unfolding scan
scan-close q buf [] h n = refl
scan-close q buf (d ∷ t) h n = ground arith

scan-behind :
    (q : ℕ) (buf : Text) (c : ℕ) (t : Text)
    → scan (quoted q) buf (b'\\' ∷ c ∷ t) ≡ scan (quoted q) ((buf ++ b'\\' ∷ []) ++ c ∷ []) t
unfolding scan
scan-behind q buf c t = refl

scan-line :
    (buf body t : Text)
    → Lacks 10 body
    → scan comment buf (body ++ 10 ∷ t) ≡ scan outside (buf ++ 10 ∷ []) t
unfolding scan
scan-line buf [] t _ = refl
scan-line buf (c ∷ body) t (h, hs) = ground (arith, scan-line buf body t hs)

scan-dashes : (buf t : Text) → scan outside buf (b'-' ∷ b'-' ∷ t) ≡ scan comment buf t
unfolding scan
scan-dashes buf t = refl

scan-inner :
    (q : ℕ) (us : List Inner) (buf rest : Text)
    → is_quote q ≡ true
    → IsInner q us
    → StartsNot q rest
    → scan (quoted q) buf ((print_inner q us ++ q ∷ []) ++ rest)
      ≡ scan outside (buf ++ (print_inner q us ++ q ∷ [])) rest
scan-inner q [] buf rest h _ n = scan-close q buf rest h n
scan-inner q (plain c ∷ us) buf rest h (a, b, hs) n =
    scan-plain q buf c ((print_inner q us ++ q ∷ []) ++ rest) a b
    ∙ scan-inner q us (buf ++ c ∷ []) rest h hs n
    ∙ ap (λ b. scan outside b rest) (append_assoc buf (c ∷ []) (print_inner q us ++ q ∷ []))
scan-inner q (behind c ∷ us) buf rest h hs n =
    scan-behind q buf c ((print_inner q us ++ q ∷ []) ++ rest)
    ∙ scan-inner q us ((buf ++ b'\\' ∷ []) ++ c ∷ []) rest h hs n
    ∙ ap (λ b. scan outside b rest)
        (append_assoc (buf ++ b'\\' ∷ []) (c ∷ []) (print_inner q us ++ q ∷ [])
          ∙ append_assoc buf (b'\\' ∷ []) (c ∷ print_inner q us ++ q ∷ []))
scan-inner q (twice ∷ us) buf rest h hs n =
    scan-twice q buf ((print_inner q us ++ q ∷ []) ++ rest) h
    ∙ scan-inner q us (buf ++ q ∷ q ∷ []) rest h hs n
    ∙ ap (λ b. scan outside b rest) (append_assoc buf (q ∷ q ∷ []) (print_inner q us ++ q ∷ []))

scan-quote :
    (q : ℕ) (us : List Inner) (buf rest : Text)
    → is_quote q ≡ true
    → IsInner q us
    → StartsNot q rest
    → scan outside buf (print (quote q us) ++ rest) ≡ scan outside (buf ++ print (quote q us)) rest
scan-quote q us buf rest h hs n =
    scan-open buf q ((print_inner q us ++ q ∷ []) ++ rest) h
    ∙ scan-inner q us (buf ++ q ∷ []) rest h hs n
    ∙ ap (λ b. scan outside b rest) (append_assoc buf (q ∷ []) (print_inner q us ++ q ∷ []))

scan-comment :
    (buf body t : Text)
    → Lacks 10 body
    → scan outside buf (print (line body) ++ t) ≡ scan outside (buf ++ 10 ∷ []) t
scan-comment buf body t h =
    scan-dashes buf ((body ++ 10 ∷ []) ++ t)
    ∙ ap (scan comment buf) (append_assoc body (10 ∷ []) t)
    ∙ scan-line buf body t h

scan-statements :
    (buf : Text) (ps : List Piece)
    → IsScript ps
    → scan outside buf (print_all ps) ≡ statements buf ps
unfolding scan
scan-statements buf [] _ = refl
scan-statements buf (char c ∷ ps) (h, a, b, hs) =
    scan-char buf c (print_all ps) h a b ∙ scan-statements (buf ++ c ∷ []) ps hs
scan-statements buf (quote q us ∷ ps) (h, i, n, hs) =
    scan-quote q us buf (print_all ps) h i n ∙ scan-statements (buf ++ print (quote q us)) ps hs
scan-statements buf (line body ∷ ps) (h, hs) =
    scan-comment buf body (print_all ps) h ∙ scan-statements (buf ++ 10 ∷ []) ps hs
scan-statements buf (semicolon ∷ ps) hs =
    scan-semicolon buf (print_all ps) ∙ ap (flush buf) (scan-statements [] ps hs)

-- A script of plain characters, closed quotes and comments is split where its semicolons outside of
-- quotes and comments stand: each comment is its line end, the quotes stay as written, and every statement
-- is trimmed and dropped when nothing is left of it.
pub split_sql-statements :
    (ps : List Piece) → IsScript ps → split_sql (print_all ps) ≡ statements [] ps
unfolding split_sql
split_sql-statements ps h = scan-statements [] ps h
