-- ===== src/Jvm/Log.antt =====
-- `parse_gc_log` of harness/src/jvm.rs: one pass over the lines, with the first error ending it.
pub mod Accounted
pub mod Examples
use spate_benchmark.Prelude.{
  ℕ, ◌+◌, Bool, true, false, Option, none, some, List, [], ◌∷◌, ◌++◌, Text, codes, ◌&&◌, ◌==◌,
  if◌then◌else◌, length,
}
use spate_benchmark.Prelude.Strings.{is_blank, lines}
use spate_benchmark.Ceiling.Float.{Float}
use spate_benchmark.Jvm.{
  Reading, JvmError, not_unified_logging, no_gc_tagged_lines, no_collector_initialised, Result, ok,
  err, Pause, HeapConfig, GcLog, Decorated, has_tag, parse_decorated,
}
use spate_benchmark.Jvm.Lines.{read_heap_config, parse_pause}

abbrev pub no_config : HeapConfig
no_config = record {
  collector = none;
  version = none;
  initial_bytes = none;
  min_bytes = none;
  max_bytes = none;
}

abbrev is_none : {A : Type 0} → Option A → Bool
is_none none = true
is_none (some a) = false

module _ (fl : Float) (reading : Reading fl.F) where
  open fl use {F}

  -- The log so far, with the lines that are not blank.
  pub record State : Type 0 where
    pub log : GcLog F
    pub lines : ℕ

  abbrev pub start : State
  start = record {
    log = record {
      pauses = [];
      heap = no_config;
      decorated_lines = 0;
      gc_lines = 0;
      foreign_lines = 0;
    };
    lines = 0;
  }

  push_pause : GcLog F → Result (Option (Pause F)) → Result (GcLog F)
  push_pause log (err e) = err e
  push_pause log (ok none) = ok log
  push_pause log (ok (some p)) = ok (record log { pauses = log.pauses ++ p ∷ [] })

  -- After the configuration was read: a line with the tag `start` only announces a pause.
  with_config : Decorated F → Text → GcLog F → Result HeapConfig → Result (GcLog F)
  unfolding push_pause
  with_config line raw log (err e) = err e
  with_config line raw log (ok heap) =
      if has_tag (codes "start") line
      then ok (record log { heap = heap })
      else push_pause (record log { heap = heap }) (parse_pause fl reading line raw)

  gc_line : Decorated F → Text → GcLog F → Result (GcLog F)
  unfolding with_config
  gc_line line raw log =
      with_config line raw (record log { gc_lines = log.gc_lines + 1 })
        (read_heap_config fl reading line raw log.heap)

  visit_decorated : Option (Decorated F) → Text → GcLog F → Result (GcLog F)
  unfolding gc_line
  visit_decorated none raw log = ok (record log { foreign_lines = log.foreign_lines + 1 })
  visit_decorated (some line) raw log =
      if has_tag (codes "gc") line
      then gc_line line raw (record log { decorated_lines = log.decorated_lines + 1 })
      else ok (record log { decorated_lines = log.decorated_lines + 1 })

  pub visit_line : Text → GcLog F → Result (GcLog F)
  unfolding visit_decorated
  visit_line raw log = visit_decorated (parse_decorated fl reading raw) raw log

  pub visit : List Text → State → Result State
  visit [] st = ok st
  visit (raw ∷ rest) st = if is_blank raw then visit rest st else elim (visit_line raw st.log) [
    | err e ↦ err e
    | ok log ↦ visit rest (record { log = log; lines = st.lines + 1 })
  ]

  conclude : State → Result (GcLog F)
  conclude st =
      if st.log.decorated_lines == 0
      then err (not_unified_logging st.lines)
      else if st.log.gc_lines == 0
      then err (no_gc_tagged_lines st.log.decorated_lines)
      else if is_none st.log.heap.collector && is_none st.log.heap.max_bytes
      then err (no_collector_initialised st.log.gc_lines (length st.log.pauses))
      else ok st.log

  concluded : Result State → Result (GcLog F)
  unfolding conclude
  concluded (err e) = err e
  concluded (ok st) = conclude st

  pub parse_gc_log : Text → Result (GcLog F)
  unfolding concluded
  parse_gc_log text = concluded (visit (lines text) start)
