-- ===== src/Corpus/Sql/Examples.antt =====
-- Tests of `split_sql`.
use spate_benchmark.Prelude.{◌≡◌, refl, List, [], ◌∷◌, arith, inl}
use spate_benchmark.Prelude.Strings.{trim, trim_end, trim_start, is_whitespace}
use spate_benchmark.Corpus.Sql.{split_sql}
use spate_benchmark.Corpus.Sql.Pieces.{
  plain, behind, twice, Piece, char, quote, line, semicolon, print_all, statements, IsScript,
  split_sql-statements,
}

-- a;-- ;<line end>'x;''\'';  ;b
abbrev script : List Piece
script =
    char b'a'
    ∷ semicolon
    ∷ line (b';' ∷ [])
    ∷ quote b'\'' (plain b'x' ∷ plain b';' ∷ twice ∷ behind b'\'' ∷ [])
    ∷ semicolon
    ∷ char b' '
    ∷ semicolon
    ∷ char b'b'
    ∷ []

script-IsScript : IsScript script
script-IsScript = (
  refl,
  omega arith,
  inl (omega arith),
  (
    (omega arith, tt),
    (
      refl,
      (omega arith, omega arith, (omega arith, omega arith, tt)),
      omega arith,
      (refl, omega arith, inl (omega arith), (refl, omega arith, inl (omega arith), tt)),
    ),
  ),
)

script_split :
    split_sql (print_all script)
    ≡ (b'a' ∷ [])
      ∷ (b'\'' ∷ b'x' ∷ b';' ∷ b'\'' ∷ b'\'' ∷ b'\\' ∷ b'\'' ∷ b'\'' ∷ [])
      ∷ (b'b' ∷ [])
      ∷ []
unfolding split_sql trim trim_end trim_start is_whitespace
script_split = refl

split_sql-statements_example : split_sql (print_all script) ≡ statements [] script
split_sql-statements_example = split_sql-statements script script-IsScript
