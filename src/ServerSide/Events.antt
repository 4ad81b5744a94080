-- ===== src/ServerSide/Events.antt =====
-- `parse_profile_events` of harness/src/serverside.rs: the counters of one row, as the server renders
-- its map.
mod RoundTrip
mod Examples
use spate_benchmark.Prelude.{
  ℕ, Option, none, some, List, [], ◌∷◌, Text, codes, if◌then◌else◌, text_eq,
}
use spate_benchmark.Prelude.Strings.{trim, is_blank, strip_prefix, strip_suffix, parse_u64}
use spate_benchmark.Selector.Split.{split_once, split}
use spate_benchmark.ServerSide.{
  Reason, not_braced, no_colon, not_quoted, not_number, ServerSideError, malformed, Result, ok, err,
  ProfileCounters,
}

abbrev pub no_counters : ProfileCounters
no_counters = record {
  user_us = none;
  system_us = none;
  real_us = none;
  os_cpu_virtual_us = none;
  os_cpu_wait_us = none;
  inserted_rows = none;
  inserted_bytes = none;
  async_insert_query = none;
  async_insert_rows = none;
}

-- A key that is not among the projected ones is ignored.
unfoldable pub store : ProfileCounters → Text → ℕ → ProfileCounters
store out key value =
    if text_eq key (codes "UserTimeMicroseconds")
    then record out { user_us = some value }
    else if text_eq key (codes "SystemTimeMicroseconds")
    then record out { system_us = some value }
    else if text_eq key (codes "RealTimeMicroseconds")
    then record out { real_us = some value }
    else if text_eq key (codes "OSCPUVirtualTimeMicroseconds")
    then record out { os_cpu_virtual_us = some value }
    else if text_eq key (codes "OSCPUWaitMicroseconds")
    then record out { os_cpu_wait_us = some value }
    else if text_eq key (codes "InsertedRows")
    then record out { inserted_rows = some value }
    else if text_eq key (codes "InsertedBytes")
    then record out { inserted_bytes = some value }
    else if text_eq key (codes "AsyncInsertQuery")
    then record out { async_insert_query = some value }
    else if text_eq key (codes "AsyncInsertRows")
    then record out { async_insert_rows = some value }
    else out

-- `strip_prefix(a).and_then(|s| s.strip_suffix(b))`
strip_last : ℕ → Option Text → Option Text
strip_last b none = none
strip_last b (some s) = strip_suffix (b ∷ []) s

unfoldable pub strip_around : ℕ → ℕ → Text → Option Text
unfolding strip_last
strip_around a b s = strip_last b (strip_prefix (a ∷ []) s)

-- The field, which the errors quote, before the entry.
pub entry_value : Text → Option Text → Option ℕ → Result (Text × ℕ)
entry_value field none value = err (malformed field not_quoted)
entry_value field (some key) none = err (malformed field not_number)
entry_value field (some key) (some value) = ok (key, value)

pub entry_parts : Text → Option (Text × Text) → Result (Text × ℕ)
unfolding entry_value
entry_parts field none = err (malformed field no_colon)
entry_parts field (some (key, value)) =
    entry_value field (strip_around b'\'' b'\'' (trim key)) (parse_u64 (trim value))

unfoldable pub entry : Text → Text → Result (Text × ℕ)
unfolding entry_parts
entry field text = entry_parts field (split_once b':' text)

unfoldable pub visit : Text → ProfileCounters → List Text → Result ProfileCounters
visit field out [] = ok out
visit field out (e ∷ es) = elim (entry field e) [
  | err refusal ↦ err refusal
  | ok (key, value) ↦ visit field (store out key value) es
]

pub parse_body : Text → Option Text → Result ProfileCounters
parse_body field none = err (malformed field not_braced)
parse_body field (some body) =
    if is_blank body then ok no_counters else visit field no_counters (split b',' body)

unfoldable pub parse_profile_events : Text → Result ProfileCounters
unfolding parse_body
parse_profile_events field = parse_body field (strip_around b'{' b'}' (trim field))
