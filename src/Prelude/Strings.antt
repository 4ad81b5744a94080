-- ===== src/Prelude/Strings.antt =====
-- The `str` methods of the language that the program calls, on the lists of characters.
pub mod Trimmed
use Prim.Native.Nat.{ℕ, zero, suc, ◌+◌, ◌-◌, ◌*◌, ◌^◌}
use mathlib.Core.Bool.{Bool, true, false, ◌&&◌, ◌||◌}
use mathlib.Core.Option.{Option, none, some}
use mathlib.Core.List.{List, [], ◌∷◌, ◌++◌, map, reverse}
use spate_benchmark.Prelude.Tests.{ltb, leb, ◌==◌, if◌then◌else◌}
use spate_benchmark.Prelude.Lists.{any, all, is_empty}
use spate_benchmark.Prelude.Texts.{Text}
use spate_benchmark.Prelude.Int.{ℤ, pos, sub_ℕ}

-- `char::is_whitespace`
unfoldable pub is_whitespace : ℕ → Bool
is_whitespace c =
    (leb 9 c && leb c 13)
    || (leb 8192 c && leb c 8202)
    || any (λ w. w == c) (32 ∷ 133 ∷ 160 ∷ 5760 ∷ 8232 ∷ 8233 ∷ 8239 ∷ 8287 ∷ 12288 ∷ [])

unfoldable pub trim_start : Text → Text
trim_start [] = []
trim_start (c ∷ s) = let rest = trim_start s in if is_whitespace c then rest else c ∷ s

unfoldable pub trim_end : Text → Text
trim_end s = reverse (trim_start (reverse s))

unfoldable pub trim : Text → Text
trim s = trim_end (trim_start s)

-- `s.trim().is_empty()`
unfoldable pub is_blank : Text → Bool
is_blank s = all is_whitespace s

unfoldable pub strip_prefix : Text → Text → Option Text
strip_prefix [] s = some s
strip_prefix (c ∷ p) [] = none
strip_prefix (c ∷ p) (d ∷ s) = let rest = strip_prefix p s in if c == d then rest else none

abbrev pub is_some : Option Text → Bool
is_some none = false
is_some (some s) = true

abbrev pub map_reverse : Option Text → Option Text
map_reverse none = none
map_reverse (some s) = some (reverse s)

unfoldable pub strip_suffix : Text → Text → Option Text
strip_suffix p s = map_reverse (strip_prefix (reverse p) (reverse s))

-- The digits of an unsigned number below `limit`, after `n`.
unfoldable pub parse_digits : ℕ → ℕ → Text → Option ℕ
parse_digits limit n [] = some n
parse_digits limit n (c ∷ s) =
    let m = n * 10 + (c - b'0') in
    let rest = parse_digits limit m s in
    if leb b'0' c && leb c b'9' && ltb m limit then rest else none

-- At least one digit.
unfoldable pub parse_number : ℕ → Text → Option ℕ
parse_number limit [] = none
parse_number limit (c ∷ s) = parse_digits limit 0 (c ∷ s)

-- `s.parse::<u64>()`: a sign `+` is allowed.
unfoldable pub parse_u64 : Text → Option ℕ
parse_u64 [] = none
parse_u64 (c ∷ s) = if c == b'+' then parse_number (2 ^ 64) s else parse_number (2 ^ 64) (c ∷ s)

abbrev map_neg : Option ℕ → Option ℤ
map_neg none = none
map_neg (some n) = some (sub_ℕ 0 n)

abbrev map_pos : Option ℕ → Option ℤ
map_pos none = none
map_pos (some n) = some (pos n)

-- `s.parse::<i64>()`
unfoldable pub parse_i64 : Text → Option ℤ
parse_i64 [] = none
parse_i64 (c ∷ s) =
    if c == b'-'
    then map_neg (parse_number (2 ^ 63 + 1) s)
    else if c == b'+'
    then map_pos (parse_number (2 ^ 63) s)
    else map_pos (parse_number (2 ^ 63) (c ∷ s))

-- `s.contains(needle)`
unfoldable pub contains : Text → Text → Bool
contains needle [] = is_empty needle
contains needle (c ∷ s) = is_some (strip_prefix needle (c ∷ s)) || contains needle s

-- A `\r` directly before a `\n` belongs to the end of the line.
drop_cr : Text → Text
drop_cr [] = []
drop_cr (c ∷ []) = c ∷ []
drop_cr (c ∷ d ∷ s) = let rest = drop_cr (d ∷ s) in if c == 13 && d == 10 then rest else c ∷ rest

abbrev onto_line : ℕ → List Text → List Text
onto_line c [] = (c ∷ []) ∷ []
onto_line c (l ∷ ls) = (c ∷ l) ∷ ls

unfoldable pub line_parts : Text → List Text
line_parts [] = []
line_parts (c ∷ s) = let rest = line_parts s in if c == 10 then [] ∷ rest else onto_line c rest

-- `s.lines()`
unfoldable pub lines : Text → List Text
unfolding drop_cr
lines s = line_parts (drop_cr s)

abbrev close_word : Text → List Text → List Text
close_word [] ws = ws
close_word (c ∷ w) ws = (c ∷ w) ∷ ws

-- The words of a text, after the part of a word before it.
unfoldable pub words_from : Text → Text → List Text
words_from w [] = close_word w []
words_from w (c ∷ s) =
    let next = words_from [] s in
    let more = words_from (w ++ c ∷ []) s in if is_whitespace c then close_word w next else more

-- `s.split_whitespace()`
unfoldable pub words : Text → List Text
words s = words_from [] s

abbrev keep_char : ℕ → Option (Text × Text) → Option (Text × Text)
keep_char c none = none
keep_char c (some (a, b)) = some (c ∷ a, b)

abbrev split_here : Option Text → Option (Text × Text) → Option (Text × Text)
split_here none later = later
split_here (some rest) later = some ([], rest)

-- `s.split_once(sep)`, where `sep` is a text that is not empty
unfoldable pub split_once_text : Text → Text → Option (Text × Text)
split_once_text sep [] = none
split_once_text sep (c ∷ s) =
    split_here (strip_prefix sep (c ∷ s)) (keep_char c (split_once_text sep s))

-- `s.ends_with(suffix)`
unfoldable pub ends_with : Text → Text → Bool
ends_with suffix s = is_some (strip_suffix suffix s)

-- The bytes of a character, `len_utf8`.
abbrev len_utf8 : ℕ → ℕ
len_utf8 c = if ltb c 128 then 1 else if ltb c 2048 then 2 else if ltb c 65536 then 3 else 4

-- `s.len()`
unfoldable pub byte_len : Text → ℕ
byte_len [] = 0
byte_len (c ∷ s) = len_utf8 c + byte_len s

-- `parts.join(" ")`
unfoldable pub join_spaces : List Text → Text
join_spaces [] = []
join_spaces (w ∷ []) = w
join_spaces (w ∷ v ∷ ws) = w ++ 32 ∷ join_spaces (v ∷ ws)
