-- ===== src/ServerSide/Response/Examples.antt =====
-- A run on an answer of four rows.
use spate_benchmark.Prelude.{[], ◌∷◌, ◌++◌, Text, codes, text_eq, ◌≡◌, refl}
use spate_benchmark.Prelude.Strings.{
  trim, trim_start, trim_end, is_whitespace, is_blank, strip_prefix, strip_suffix, parse_u64,
  parse_number, parse_digits, contains, lines, line_parts,
}
use spate_benchmark.Selector.Split.{split_once, split}
use spate_benchmark.ServerSide.{ok}
use spate_benchmark.ServerSide.Events.{store, strip_around, entry, visit, parse_profile_events}
use spate_benchmark.ServerSide.Response.{
  parse_row_type, splitn, query, query_of, parse_line, parse_lines, parse_response,
}
use spate_benchmark.ServerSide.Cost.Examples.{rows}

abbrev row_text : Text → Text → Text → Text
row_text name written events =
    name
    ++ 9 ∷ written
    ++ 9 ∷ codes "3"
    ++ 9 ∷ codes "{'InsertedRows':500"
    ++ events
    ++ codes "}"
    ++ 10 ∷ []

abbrev pub answer : Text
answer =
    row_text (codes "QueryStart") (codes "0") []
    ++ row_text (codes "QueryFinish") (codes "500")
        (codes ",'UserTimeMicroseconds':70,'SystemTimeMicroseconds':5")
    ++ 10
      ∷ row_text (codes "ExceptionWhileProcessing") (codes "0") (codes ",'UserTimeMicroseconds':9")
    ++ row_text (codes "QueryFinish") (codes "500") []

pub parse_answer : parse_response answer ≡ ok rows
unfolding parse_response parse_lines parse_line query query_of splitn parse_row_type contains lines
    line_parts parse_profile_events visit entry strip_around store trim trim_start trim_end
    is_whitespace is_blank strip_prefix strip_suffix parse_u64 parse_number parse_digits split
    split_once text_eq
parse_answer = refl
