-- ===== src/Jvm/Log/Accounted.antt =====
-- What a log that is accepted accounts for.
use spate_benchmark.Prelude.{
  ℕ, sym, subst, ◌+◌, ◌<◌, ◌≤◌, Bool, true, false, not, Option, none, some, List, [], ◌∷◌, Text,
  codes, ◌&&◌, ◌==◌, if◌then◌else◌, length, filter, length-append, ◌≡◌, refl, arith, Bool-cases,
  inl, inr,
}
use spate_benchmark.Prelude.Strings.{is_blank, lines}
use spate_benchmark.Ceiling.Float.{Float}
use spate_benchmark.Jvm.{
  Reading, JvmError, Result, Holds, Holds-map, Holds-ok, ok, err, Pause, HeapConfig, GcLog,
  Decorated, has_tag, parse_decorated,
}
use spate_benchmark.Jvm.Lines.{read_heap_config, parse_pause}
use spate_benchmark.Jvm.Log.{
  is_none, State, start, push_pause, with_config, gc_line, visit_decorated, visit_line, visit,
  conclude, concluded, parse_gc_log,
}

module _ (fl : Float) (reading : Reading fl.F) where
  open fl use {F}

  -- Each of `n` lines is decorated or foreign, once, and each pause has a line of the collector.
  pub record Balanced (n : ℕ) (log : GcLog F) : Type 0 where
    pub each_once : log.decorated_lines + log.foreign_lines ≡ n
    pub gc_decorated : log.gc_lines ≤ log.decorated_lines
    pub pauses_gc : length log.pauses ≤ log.gc_lines

  -- Balanced once a pause is added.
  abbrev Announced : ℕ → GcLog F → Type 0
  Announced n log =
      (log.decorated_lines + log.foreign_lines ≡ n)
      × (log.gc_lines ≤ log.decorated_lines)
      × (length log.pauses < log.gc_lines)

  relaxed : (n : ℕ) (log : GcLog F) → Announced n log → Balanced n log
  relaxed n log (a, b, c) = record { each_once = a; gc_decorated = b; pauses_gc = omega arith }

  push_pause-Balanced :
      (n : ℕ) (log : GcLog F) (r : Result (Option (Pause F)))
      → Announced n log
      → Holds (Balanced n) (push_pause fl reading log r)
  unfolding push_pause
  push_pause-Balanced n log (err e) a = tt
  push_pause-Balanced n log (ok none) a = relaxed n log a
  push_pause-Balanced n log (ok (some p)) (a, b, c) = record {
    each_once = a;
    gc_decorated = b;
    pauses_gc = omega (arith, length-append log.pauses (p ∷ []));
  }

  with_config-Balanced :
      (n : ℕ) (line : Decorated F) (raw : Text) (log : GcLog F) (r : Result HeapConfig)
      → Announced n log
      → Holds (Balanced n) (with_config fl reading line raw log r)
  unfolding with_config
  with_config-Balanced n line raw log (err e) a = tt
  with_config-Balanced n line raw log (ok heap) a =
      let next = record log { heap = heap } in
      elim (Bool-cases (has_tag (codes "start") line)) [
        | inl e ↦ rw e (relaxed n next a)
        | inr e ↦ rw e (push_pause-Balanced n next (parse_pause fl reading line raw) a)
      ]

  visit_decorated-Balanced :
      (n : ℕ) (o : Option (Decorated F)) (raw : Text) (log : GcLog F)
      → Balanced n log
      → Holds (Balanced (1 + n)) (visit_decorated fl reading o raw log)
  unfolding visit_decorated gc_line
  visit_decorated-Balanced n none raw log b = record {
    each_once = omega (arith, b.each_once);
    gc_decorated = b.gc_decorated;
    pauses_gc = b.pauses_gc;
  }
  visit_decorated-Balanced n (some line) raw log b =
      let more = record log { decorated_lines = log.decorated_lines + 1 } in
      let announced = record more { gc_lines = more.gc_lines + 1 } in
      elim (Bool-cases (has_tag (codes "gc") line)) [
        | inl e ↦ rw e (
            with_config-Balanced (1 + n) line raw announced
              (read_heap_config fl reading line raw more.heap)
              (
                omega (arith, b.each_once),
                omega (arith, b.gc_decorated),
                omega (arith, b.pauses_gc),
              ))
        | inr e ↦ rw e (record {
          each_once = omega (arith, b.each_once);
          gc_decorated = omega (arith, b.gc_decorated);
          pauses_gc = b.pauses_gc;
        })
      ]

  abbrev step : List Text → State fl reading → Result (GcLog F) → Result (State fl reading)
  step rest st r = elim r [
    | err e ↦ err e
    | ok log ↦ visit fl reading rest (record { log = log; lines = st.lines + 1 })
  ]

  written : List Text → ℕ
  written ls = length (filter (λ l. not (is_blank l)) ls)

  written-nil : written [] ≡ 0
  unfolding written
  written-nil = refl

  written-blank :
      (raw : Text) (rest : List Text) → is_blank raw ≡ true → written (raw ∷ rest) ≡ written rest
  unfolding written
  written-blank raw rest e = rw e refl

  written-more :
      (raw : Text) (rest : List Text)
      → is_blank raw ≡ false
      → written (raw ∷ rest) ≡ 1 + written rest
  unfolding written
  written-more raw rest e = rw e (omega arith)

  -- A pass over lines, of which `n` are not blank.
  record Passed (n : ℕ) (st next : State fl reading) : Type 0 where
    balanced : Balanced next.lines next.log
    counted : next.lines ≡ st.lines + n

  visited-Passed :
      (raw : Text) (rest : List Text) (st : State fl reading) (r : Result (GcLog F))
      → is_blank raw ≡ false
      → ((next : State fl reading)
          → Balanced next.lines next.log
          → Holds (Passed (written rest) next) (visit fl reading rest next))
      → Holds (Balanced (1 + st.lines)) r
      → Holds (Passed (written (raw ∷ rest)) st) (step rest st r)
  visited-Passed raw rest st (err e) k ih h = tt
  visited-Passed raw rest st (ok log) k ih h =
      let next : State fl reading = record { log = log; lines = st.lines + 1 } in
      Holds-map (Passed (written rest) next) (Passed (written (raw ∷ rest)) st)
        (λ last p. record {
          balanced = p.balanced;
          counted = omega (arith, p.counted, written-more raw rest k);
        })
        (visit fl reading rest next) (ih next (subst (λ n. Balanced n log) (omega arith) h))

  visit-Passed :
      (rest : List Text) (st : State fl reading)
      → Balanced st.lines st.log
      → Holds (Passed (written rest) st) (visit fl reading rest st)
  unfolding visit visit_line
  visit-Passed [] st b = record { balanced = b; counted = omega (arith, written-nil) }
  visit-Passed (raw ∷ rest) st b = elim (Bool-cases (is_blank raw)) [
    | inl e ↦ rw e (
        Holds-map (Passed (written rest) st) (Passed (written (raw ∷ rest)) st)
          (λ last p. record {
            balanced = p.balanced;
            counted = omega (arith, p.counted, written-blank raw rest e);
          })
          (visit fl reading rest st) (visit-Passed rest st b))
    | inr e ↦ rw e (
        visited-Passed raw rest st (visit_line fl reading raw st.log) e (visit-Passed rest)
          (visit_decorated-Balanced st.lines (parse_decorated fl reading raw) raw st.log b))
  ]

  -- What an accepted log accounts for, of a text with `n` lines that are not blank.
  pub record IsAccounted (n : ℕ) (log : GcLog F) : Type 0 where
    pub each_once : log.decorated_lines + log.foreign_lines ≡ n
    pub gc_decorated : log.gc_lines ≤ log.decorated_lines
    pub pauses_gc : length log.pauses ≤ log.gc_lines
    pub some_gc : 0 < log.gc_lines
    pub initialised : (is_none log.heap.collector && is_none log.heap.max_bytes) ≡ false

  checks :
      (n : ℕ) (log : GcLog F) (a b c : Bool) (e f g : JvmError)
      → Balanced n log
      → b ≡ (log.gc_lines == 0)
      → c ≡ (is_none log.heap.collector && is_none log.heap.max_bytes)
      → Holds
          (IsAccounted n)
          (if a then err e else if b then err f else if c then err g else ok log)
  checks n log true b c e f g bal hb hc = tt
  checks n log false true c e f g bal hb hc = tt
  checks n log false false true e f g bal hb hc = tt
  checks n log false false false e f g bal hb hc = record {
    each_once = bal.each_once;
    gc_decorated = bal.gc_decorated;
    pauses_gc = bal.pauses_gc;
    some_gc = ground (arith, hb);
    initialised = sym hc;
  }

  concluded-IsAccounted :
      (n : ℕ) (r : Result (State fl reading))
      → Holds (Passed n (start fl reading)) r
      → Holds (IsAccounted n) (concluded fl reading r)
  unfolding concluded conclude
  concluded-IsAccounted n (err e) h = tt
  concluded-IsAccounted n (ok st) h =
      subst (λ k. Holds (IsAccounted k) (concluded fl reading (ok st))) (omega (arith, h.counted))
        (checks st.lines st.log _ _ _ _ _ _ h.balanced refl refl)

  -- An accepted log counts each line that is not blank once, as decorated or as foreign; of the
  -- decorated ones some are the collector's, there are no more pauses than those, and the collector or
  -- its largest heap is known.
  pub parse_gc_log-IsAccounted :
      (text : Text) (log : GcLog F)
      → parse_gc_log fl reading text ≡ ok log
      → IsAccounted (length (filter (λ l. not (is_blank l)) (lines text))) log
  unfolding parse_gc_log written
  parse_gc_log-IsAccounted text log h =
      let n = written (lines text) in
      let balanced : Balanced 0 ((start fl reading).log) = record {
        each_once = refl;
        gc_decorated = omega arith;
        pauses_gc = omega arith;
      } in
      Holds-ok (IsAccounted n) (parse_gc_log fl reading text) log
        (concluded-IsAccounted n (visit fl reading (lines text) (start fl reading))
          (visit-Passed (lines text) (start fl reading) balanced))
        h
