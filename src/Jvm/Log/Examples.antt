-- ===== src/Jvm/Log/Examples.antt =====
-- A log of two collections beside a line of the application.
use spate_benchmark.Prelude.{
  ℕ, ◌+◌, ◌*◌, ◌/◌, not, Option, none, some, [], ◌∷◌, ◌++◌, Text, codes, text_eq, leb, length,
  filter, ◌≡◌, refl,
}
use spate_benchmark.Prelude.Strings.{
  trim, trim_start, trim_end, is_whitespace, is_blank, strip_prefix, strip_suffix, parse_u64,
  parse_number, parse_digits, contains, lines, line_parts, words, words_from, split_once_text,
  ends_with, byte_len, join_spaces,
}
use spate_benchmark.Selector.Split.{split, split_once}
use spate_benchmark.Scaled.{thousandths}
use spate_benchmark.Jvm.{
  Reading, ok, err, unparseable_pause, no_duration, Pause, GcLog, has_tag, parse_decorated, groups,
  inside, pop, first_uptime, parse_uptime, parse_size,
}
use spate_benchmark.Jvm.Lines.{read_heap_config, parse_pause}
use spate_benchmark.Jvm.Log.{no_config, visit, visit_line, concluded, parse_gc_log}
use spate_benchmark.Jvm.Log.Accounted.{IsAccounted, parse_gc_log-IsAccounted}

-- Numbers of one to three digits, or with three decimals, as whole thousandths.
abbrev with_decimals : Option (Text × Text) → Option ℕ → Option ℕ
with_decimals none whole = whole
with_decimals (some (a, b)) whole = parse_u64 (a ++ b)

abbrev times_1000 : Option ℕ → Option ℕ
times_1000 none = none
times_1000 (some n) = some (n * 1000)

abbrev pub reading : Reading ℕ
reading = record {
  parse = λ s. with_decimals (split_once b'.' s) (times_1000 (parse_u64 s));
  trunc = λ x. x / 1000;
  ceil = λ x. (x + 999) / 1000;
  is_alphanumeric = λ c. leb b'0' c;
}

abbrev text : Text
text =
    codes "[0.003s][info][gc] Using G1"
    ++ 10 ∷ codes "[0.004s][info][gc,init] Heap Max Capacity: 512M"
    ++ 10 ∷ codes "INFO  arm - started"
    ++ 10 ∷ codes "[0.228s][info][gc,start    ] GC(0) Pause Young (Normal)"
    ++ 10 ∷ codes "[0.230s][info][gc          ] GC(0) Pause Young (Normal) 48M->20M(256M) 2.417ms"
    ++ 10 ∷ codes "[0.900s][info][gc,phases   ] GC(1) y: Pause Mark Start 0.011ms"

abbrev young : Pause ℕ
young = record {
  gc_id = some 0;
  uptime_s = some 230;
  generation = none;
  label = codes "Young (Normal)";
  us = 2417000;
  heap =
      some (record { before_bytes = 50331648; after_bytes = 20971520; capacity_bytes = 268435456 });
}

abbrev mark : Pause ℕ
mark = record {
  gc_id = some 1;
  uptime_s = some 900;
  generation = some (codes "y");
  label = codes "Mark Start";
  us = 11000;
  heap = none;
}

abbrev pub log : GcLog ℕ
log = record {
  pauses = young ∷ mark ∷ [];
  heap = record no_config { collector = some (codes "G1"); max_bytes = some 536870912 };
  decorated_lines = 5;
  gc_lines = 5;
  foreign_lines = 1;
}

parse_text : parse_gc_log thousandths reading text ≡ ok log
unfolding parse_gc_log visit visit_line concluded parse_decorated groups inside pop first_uptime
    parse_uptime parse_size has_tag read_heap_config parse_pause contains lines line_parts words
    words_from split_once_text ends_with byte_len join_spaces trim trim_start trim_end is_whitespace
    is_blank strip_prefix strip_suffix parse_u64 parse_number parse_digits split split_once text_eq
parse_text = refl

abbrev cut : Text
cut = codes "[0.230s][info][gc] GC(0) Pause Young (Normal) 48M->20M(256M)"

-- A pause without a duration is refused.
parse_cut : parse_gc_log thousandths reading cut ≡ err (unparseable_pause cut no_duration)
unfolding parse_gc_log visit visit_line concluded parse_decorated groups inside pop first_uptime
    parse_uptime parse_size has_tag read_heap_config parse_pause contains lines line_parts words
    words_from split_once_text ends_with byte_len join_spaces trim trim_start trim_end is_whitespace
    is_blank strip_prefix strip_suffix parse_u64 parse_number parse_digits split split_once text_eq
parse_cut = refl

parse_gc_log-IsAccounted_example :
    IsAccounted thousandths reading (length (filter (λ l. not (is_blank l)) (lines text))) log
parse_gc_log-IsAccounted_example = parse_gc_log-IsAccounted thousandths reading text log parse_text
