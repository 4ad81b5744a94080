-- ===== src/Jvm/Lines.antt =====
-- `parse_pause`, `parse_heap_triple` and `read_heap_config` of harness/src/jvm.rs: what one line of the
-- collector says.
use spate_benchmark.Prelude.{
  ℕ, not, Option, none, some, List, [], ◌∷◌, Text, codes, ◌&&◌, if◌then◌else◌, all, is_empty, leb,
  text_eq,
}
use spate_benchmark.Prelude.Strings.{
  trim, trim_start, strip_prefix, strip_suffix, parse_u64, contains, words, split_once_text,
  ends_with, byte_len, join_spaces,
}
use spate_benchmark.Selector.Split.{split_once}
use spate_benchmark.Ceiling.Float.{Float}
use spate_benchmark.Jvm.{
  Reading, no_duration, unparseable_pause, unparseable_size, Result, ok, err, HeapTriple, Pause,
  HeapConfig, Decorated, has_tag, parse_size, pop,
}

-- After the `GC(`, with the text that it stands in.
abbrev after_id : Text → Option (Text × Text) → Option ℕ × Text
after_id rest none = (none, rest)
after_id rest (some (id, after)) = (parse_u64 id, trim_start after)

abbrev gc_tail : Text → Option Text → Option ℕ × Text
gc_tail rest none = (none, rest)
gc_tail rest (some tail) = after_id rest (split_once b')' tail)

-- The `GC(n)` of a message, and what follows it.
pub gc_id_of : Text → Option ℕ × Text
gc_id_of message = gc_tail message (strip_prefix (codes "GC(") message)

module _ (fl : Float) (reading : Reading fl.F) where
  open fl use {F, mul, decimal}

  abbrev generation_of : Text → Option (Text × Text) → Option Text × Text
  generation_of rest none = (none, rest)
  generation_of rest (some (head, after)) =
      if leb (byte_len head) 2 && not (is_empty head) && all reading.is_alphanumeric head
      then (some head, trim_start after)
      else (none, rest)

  triple : Option ℕ → Option ℕ → Option ℕ → Option HeapTriple
  triple (some b) (some a) (some c) =
      some (record { before_bytes = b; after_bytes = a; capacity_bytes = c })
  triple _ _ _ = none

  capacity_part : Text → Text → Option Text → Option HeapTriple
  unfolding triple
  capacity_part before after none = none
  capacity_part before after (some capacity) =
      triple (parse_size fl reading before) (parse_size fl reading after)
        (parse_size fl reading capacity)

  after_part : Text → Option (Text × Text) → Option HeapTriple
  unfolding capacity_part
  after_part before none = none
  after_part before (some (after, capacity)) =
      capacity_part before after (strip_suffix (codes ")") capacity)

  before_part : Option (Text × Text) → Option HeapTriple
  unfolding after_part
  before_part none = none
  before_part (some (before, rest)) = after_part before (split_once b'(' rest)

  pub parse_heap_triple : Text → Option HeapTriple
  unfolding before_part
  parse_heap_triple token = before_part (split_once_text (codes "->") token)

  -- The last word read as a duration.
  duration_of : Option Text → Option F
  duration_of none = none
  duration_of (some t) = reading.parse t

  pub duration : Text → Option F
  unfolding duration_of
  duration t = duration_of (strip_suffix (codes "ms") t)

  pause_of : Decorated F → Option ℕ → Option Text → F → List Text → Option HeapTriple → Pause F
  pause_of line gc_id generation d tokens heap = record {
    gc_id = gc_id;
    uptime_s = line.uptime_s;
    generation = generation;
    label = join_spaces tokens;
    us = mul d (decimal 1000 1);
    heap = heap;
  }

  pause_heap :
      Decorated F
      → Text
      → Option ℕ
      → Option Text
      → F
      → List Text
      → Text
      → Option HeapTriple
      → Result (Option (Pause F))
  unfolding pause_of
  pause_heap line raw gc_id generation d before token none = err (unparseable_size raw token)
  pause_heap line raw gc_id generation d before token (some h) =
      ok (some (pause_of line gc_id generation d before (some h)))

  -- The words before the duration: the last of them may be the heap's.
  pause_words :
      Decorated F → Text → Option ℕ → Option Text → F → List Text → Result (Option (Pause F))
  unfolding pause_of pause_heap parse_heap_triple
  pause_words line raw gc_id generation d [] = ok (some (pause_of line gc_id generation d [] none))
  pause_words line raw gc_id generation d (t ∷ ts) =
      let (before, token) = pop t ts in
      if contains (codes "->") token
      then pause_heap line raw gc_id generation d before token (parse_heap_triple token)
      else ok (some (pause_of line gc_id generation d (t ∷ ts) none))

  pause_duration :
      Decorated F → Text → Option ℕ → Option Text → List Text → Option F → Result (Option (Pause F))
  unfolding pause_words
  pause_duration line raw gc_id generation tokens none = err (unparseable_pause raw no_duration)
  pause_duration line raw gc_id generation tokens (some d) =
      pause_words line raw gc_id generation d tokens

  pause_tokens : Decorated F → Text → Option ℕ → Option Text → List Text → Result (Option (Pause F))
  unfolding pause_duration duration
  pause_tokens line raw gc_id generation [] = err (unparseable_pause raw no_duration)
  pause_tokens line raw gc_id generation (t ∷ ts) =
      let (before, token) = pop t ts in
      pause_duration line raw gc_id generation before (duration token)

  pause_body : Decorated F → Text → Option ℕ → Option Text → Option Text → Result (Option (Pause F))
  unfolding pause_tokens
  pause_body line raw gc_id generation none = ok none
  pause_body line raw gc_id generation (some body) =
      pause_tokens line raw gc_id generation (words (trim body))

  unfoldable pub parse_pause : Decorated F → Text → Result (Option (Pause F))
  unfolding pause_body gc_id_of
  parse_pause line raw =
      let (gc_id, after) = gc_id_of line.message in
      let (generation, rest) = generation_of after (split_once_text (codes ": ") after) in
      pause_body line raw gc_id generation (strip_prefix (codes "Pause") rest)

  -- `slot`
  pub data Slot : Type 0 where
    max_slot : Slot
    initial_slot : Slot
    min_slot : Slot

  abbrev set_slot : Slot → ℕ → HeapConfig → HeapConfig
  set_slot max_slot n heap = record heap { max_bytes = some n }
  set_slot initial_slot n heap = record heap { initial_bytes = some n }
  set_slot min_slot n heap = record heap { min_bytes = some n }

  abbrev slot_of : Text → Option Slot
  slot_of key =
      if ends_with (codes "Max Capacity") key
      then some max_slot
      else if ends_with (codes "Initial Capacity") key
      then some initial_slot
      else if ends_with (codes "Min Capacity") key
      then some min_slot
      else none

  fill : Slot → Text → Text → HeapConfig → Option ℕ → Result HeapConfig
  fill slot raw value heap none = err (unparseable_size raw value)
  fill slot raw value heap (some n) = ok (set_slot slot n heap)

  fill_slot : Option Slot → Text → Text → HeapConfig → Result HeapConfig
  unfolding fill
  fill_slot none raw value heap = ok heap
  fill_slot (some slot) raw value heap = fill slot raw value heap (parse_size fl reading value)

  init_pair : Text → HeapConfig → Option (Text × Text) → Result HeapConfig
  unfolding fill_slot
  init_pair raw heap none = ok heap
  init_pair raw heap (some (key, value)) =
      if text_eq (trim key) (codes "Version")
      then ok (record heap { version = some (trim value) })
      else fill_slot (slot_of (trim key)) raw (trim value) heap

  config_init : Decorated F → Text → HeapConfig → Result HeapConfig
  unfolding init_pair
  config_init line raw heap =
      if has_tag (codes "init") line
      then init_pair raw heap (split_once b':' line.message)
      else ok heap

  config_initializing : Decorated F → Text → HeapConfig → Option Text → Result HeapConfig
  unfolding config_init
  config_initializing line raw heap (some rest) = ok (record heap { collector = some (trim rest) })
  config_initializing line raw heap none = config_init line raw heap

  config_using : Decorated F → Text → HeapConfig → Option Text → Result HeapConfig
  unfolding config_initializing
  config_using line raw heap (some name) = ok (record heap { collector = some (trim name) })
  config_using line raw heap none =
      config_initializing line raw heap (strip_prefix (codes "Initializing ") line.message)

  -- The configuration after the line.
  unfoldable pub read_heap_config : Decorated F → Text → HeapConfig → Result HeapConfig
  unfolding config_using
  read_heap_config line raw heap =
      config_using line raw heap (strip_prefix (codes "Using ") line.message)
