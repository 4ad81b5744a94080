-- ===== src/Corpus/Sql.antt =====
-- `split_sql` of harness/src/corpus.rs: a script as its statements.
pub mod Pieces
mod Examples
use spate_benchmark.Prelude.{
  ℕ, Bool, List, [], ◌∷◌, ◌++◌, Text, ◌||◌, ◌&&◌, ◌==◌, if◌then◌else◌, is_empty,
}
use spate_benchmark.Prelude.Strings.{trim}

-- Where the scan stands: outside of quotes, inside the quotes of a character, after a backslash inside
-- them, or in a comment.
pub data Place : Type 0 where
  outside : Place
  quoted : ℕ → Place
  escaped : ℕ → Place
  comment : Place

-- `flush`, before the later statements
pub flush : Text → List Text → List Text
flush buf later = if is_empty (trim buf) then later else trim buf ∷ later

abbrev pub is_quote : ℕ → Bool
is_quote c = c == b'\'' || c == b'"' || c == b'`'

-- The statements of the rest, after the buffer. A pair of delimiters, an escape and the start of a
-- comment are two characters.
pub scan : Place → Text → Text → List Text
unfolding flush
scan place buf [] = flush buf []
scan (escaped q) buf (c ∷ s) = scan (quoted q) (buf ++ c ∷ []) s
scan comment buf (c ∷ s) =
    let ended = scan outside (buf ++ c ∷ []) s in
    let more = scan comment buf s in if c == 10 then ended else more
scan (quoted q) buf (c ∷ []) = flush (buf ++ c ∷ []) []
scan (quoted q) buf (c ∷ d ∷ s) =
    let escape = scan (escaped q) (buf ++ c ∷ []) (d ∷ s) in
    let doubled = scan (quoted q) (buf ++ c ∷ q ∷ []) s in
    let closed = scan outside (buf ++ c ∷ []) (d ∷ s) in
    let more = scan (quoted q) (buf ++ c ∷ []) (d ∷ s) in
    if c == b'\\' then escape else if c == q then (if d == q then doubled else closed) else more
scan outside buf (c ∷ []) = if c == b';' then flush buf [] else flush (buf ++ c ∷ []) []
scan outside buf (c ∷ d ∷ s) =
    let opened = scan (quoted c) (buf ++ c ∷ []) (d ∷ s) in
    let skipped = scan comment buf s in
    let ended = flush buf (scan outside [] (d ∷ s)) in
    let more = scan outside (buf ++ c ∷ []) (d ∷ s) in
    if is_quote c
    then opened
    else if c == b'-' && d == b'-'
    then skipped
    else if c == b';'
    then ended
    else more

pub split_sql : Text → List Text
unfolding scan
split_sql sql = scan outside [] sql
