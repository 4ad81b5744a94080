-- ===== src/ServerSide/Response/Lengths.antt =====
-- How many rows an answer has.
use spate_benchmark.Prelude.{
  ℕ, ◌+◌, Bool, true, false, not, List, [], ◌∷◌, Text, codes, if◌then◌else◌, filter, length, ◌≡◌,
  refl, arith,
}
use spate_benchmark.Prelude.Strings.{is_blank, contains, trim, lines}
use spate_benchmark.ServerSide.{ServerSideError, server_exception, Result, ok, err, AttributedQuery}
use spate_benchmark.ServerSide.Response.{parse_line, cons_row, parse_lines, parse_response}

-- The rows of an answer, one for each of its lines that is not blank.
abbrev pub rows_of : Text → List Text
rows_of b = filter (λ l. not (is_blank l)) (lines b)

cons_row-length :
    (r : Result AttributedQuery) (rest : Result (List AttributedQuery)) (n : ℕ)
    (rs : List AttributedQuery)
    → ((qs : List AttributedQuery) → rest ≡ ok qs → length qs ≡ n)
    → cons_row r rest ≡ ok rs
    → length rs ≡ 1 + n
cons_row-length (err e) rest n rs ih h = cc
cons_row-length (ok r) (err e) n rs ih h = cc
cons_row-length (ok r) (ok qs) n [] ih h = cc
cons_row-length (ok r) (ok qs) n (q ∷ rs) ih h = omega (arith, ih rs cc)

line-length :
    (b : Bool) (l : Text) (ls : List Text) (rs : List AttributedQuery)
    → ((qs : List AttributedQuery)
        → parse_lines ls ≡ ok qs
        → length qs ≡ length (filter (λ k. not (is_blank k)) ls))
    → (if b then parse_lines ls else cons_row (parse_line l) (parse_lines ls)) ≡ ok rs
    → length rs
      ≡ length (
          if not b
          then l ∷ filter (λ k. not (is_blank k)) ls
          else filter (λ k. not (is_blank k)) ls)
line-length true l ls rs ih h = ih rs h
line-length false l ls rs ih h =
    omega (arith, cons_row-length (parse_line l) (parse_lines ls) _ rs ih h)

parse_lines-length :
    (ls : List Text) (rs : List AttributedQuery)
    → parse_lines ls ≡ ok rs
    → length rs ≡ length (filter (λ l. not (is_blank l)) ls)
unfolding parse_lines
parse_lines-length [] [] h = refl
parse_lines-length [] (r ∷ rs) h = cc
parse_lines-length (l ∷ ls) rs h = line-length (is_blank l) l ls rs (parse_lines-length ls) h

response-length :
    (b : Bool) (e : ServerSideError) (ls : List Text) (rs : List AttributedQuery)
    → (if b then err e else parse_lines ls) ≡ ok rs
    → length rs ≡ length (filter (λ l. not (is_blank l)) ls)
response-length true e ls rs h = cc
response-length false e ls rs h = parse_lines-length ls rs h

pub parse_response-length :
    (b : Text) (rs : List AttributedQuery)
    → parse_response b ≡ ok rs
    → length rs ≡ length (rows_of b)
unfolding parse_response
parse_response-length b rs h =
    response-length (contains (codes "DB::Exception") b) (server_exception (trim b)) (lines b) rs h
