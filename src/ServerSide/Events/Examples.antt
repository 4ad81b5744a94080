-- ===== src/ServerSide/Events/Examples.antt =====
-- Runs on a map of counters.
use spate_benchmark.Prelude.{some, List, [], ◌∷◌, codes, text_eq, ◌≡◌, refl, arith}
use spate_benchmark.Prelude.Strings.{
  trim, trim_start, trim_end, is_whitespace, is_blank, strip_prefix, strip_suffix, parse_u64,
  parse_number, parse_digits,
}
use spate_benchmark.Selector.Split.{split_once, split}
use spate_benchmark.ServerSide.{ok, err, malformed, not_number}
use spate_benchmark.ServerSide.Events.{
  no_counters, store, strip_last, strip_around, entry_value, entry_parts, entry, visit, parse_body,
  parse_profile_events,
}
use spate_benchmark.ServerSide.Events.RoundTrip.{
  Entry, render, store_all, parse_profile_events-render,
}

two_counters :
    parse_profile_events (codes "{'UserTimeMicroseconds': 70,'NetworkSend':1,'InsertedRows':500}")
    ≡ ok (record no_counters { user_us = some 70; inserted_rows = some 500 })
unfolding parse_profile_events parse_body visit entry entry_parts entry_value strip_around
    strip_last store trim trim_start trim_end is_whitespace is_blank strip_prefix strip_suffix
    parse_u64 parse_number parse_digits split split_once text_eq
two_counters = refl

negative_value :
    parse_profile_events (codes "{'InsertedRows':-1}")
    ≡ err (malformed (codes "{'InsertedRows':-1}") not_number)
unfolding parse_profile_events parse_body visit entry entry_parts entry_value strip_around
    strip_last store trim trim_start trim_end is_whitespace is_blank strip_prefix strip_suffix
    parse_u64 parse_number parse_digits split split_once text_eq
negative_value = refl

abbrev entries : List Entry
entries = (codes "A", 70) ∷ (codes "Bc", 500) ∷ []

parse_profile_events-render_example :
    parse_profile_events (render entries) ≡ ok (store_all no_counters entries)
parse_profile_events-render_example = parse_profile_events-render entries (
  ((λ e. absurd (omega arith), tt), (λ e. absurd (omega arith), tt), omega arith),
  (
    (
      (λ e. absurd (omega arith), (λ e. absurd (omega arith), tt)),
      (λ e. absurd (omega arith), (λ e. absurd (omega arith), tt)),
      omega arith,
    ),
    tt,
  ),
)
