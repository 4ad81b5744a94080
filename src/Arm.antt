-- ===== src/Arm.antt =====
-- entrants/spate/src/rows.rs: the Spate arm's own flatten of a decoded batch. Panics of the source end
-- the run: what was emitted before stays emitted.
pub mod Agrees
mod Examples
use spate_benchmark.Prelude.{
  ℕ, zero, suc, ◌+◌, ◌-◌, ◌^◌, Bool, true, false, Option, none, some, List, [], ◌∷◌, ◌++◌, map,
  Text, codes, ltb, leb, ◌&&◌, if◌then◌else◌, text_eq,
}
use spate_benchmark.Prelude.Int.{ℤ, pos, negsuc, mul_i64, div_i64}
use spate_benchmark.Ceiling.Float.{Float}
use spate_benchmark.Corpus.Avro.{
  AvroValue, null, int, long, double, string, union, array, object, Items, nil, cons, Fields, end,
  field,
}

-- `None` of these helpers is a panic.
infixl 5 ◌>>=◌
abbrev pub ◌>>=◌ : {A B : Type 0} → Option A → (A → Option B) → Option B
none >>= f = none
some a >>= f = f a

abbrev drop_unit : Text
drop_unit = codes "drop"

upper_byte : ℕ → ℕ
upper_byte c = if leb b'a' c && leb c b'z' then c - 32 else c

unfoldable pub ascii_upper : Text → Text
unfolding upper_byte
ascii_upper s = map upper_byte s

unfoldable pub value_scaled : ℤ → ℕ → ℤ
value_scaled value seq = div_i64 (mul_i64 value 1000) (seq + 1)

pub record Row (F : Type 0) : Type 0 where
  pub batch_id : ℕ
  pub event_seq : ℕ
  pub sensor : Text
  pub region : Text
  pub name_upper : Text
  pub unit : Text
  pub value : ℤ
  pub value_scaled : ℤ
  pub quality : Option F
  pub tags : List Text
  pub batch_ts : ℤ
  pub send_ts : ℤ

module _ {F : Type 0} where
  as_record : AvroValue F → Option (Fields F)
  as_record (object fields) = some fields
  as_record _ = none

  as_long : AvroValue F → Option ℤ
  as_long (long n) = some n
  as_long (int n) = some n
  as_long _ = none

  as_str : AvroValue F → Option Text
  as_str (string s) = some s
  as_str _ = none

  present : AvroValue F → Option (AvroValue F)
  present null = none
  present v = some v

  -- The inner option is the source's: the present branch of a union.
  pub as_union : AvroValue F → Option (AvroValue F)
  unfolding present
  as_union (union i inner) = present inner
  as_union null = none
  as_union v = some v

  as_items : AvroValue F → Option (Items F)
  as_items (array items) = some items
  as_items _ = none

  pub strs : Items F → Option (List Text)
  unfolding as_str
  strs nil = some []
  strs (cons v vs) = as_str v >>= λ s. strs vs >>= λ ss. some (s ∷ ss)

  as_tags : AvroValue F → Option (List Text)
  unfolding as_items strs
  as_tags v = as_items v >>= strs

  -- `rec[i].1`
  at : Fields F → ℕ → Option (AvroValue F)
  at end i = none
  at (field k v fs) zero = some v
  at (field k v fs) (suc i) = at fs i

  -- `map_or_else(String::new, …)`
  pub or_empty : Option (AvroValue F) → Option Text
  unfolding as_str
  or_empty none = some []
  or_empty (some v) = as_str v

  pub as_quality : Option (AvroValue F) → Option (Option F)
  as_quality none = some none
  as_quality (some (double d)) = some (some d)
  as_quality (some v) = none

-- `uN::try_from(n)` with the least value that does not fit.
try_from : ℕ → ℤ → Option ℕ
try_from limit (pos n) = if ltb n limit then some n else none
try_from limit (negsuc n) = none

-- The columns that every row of a batch shares.
pub record Batch : Type 0 where
  pub batch_id : ℕ
  pub sensor : Text
  pub region : Text
  pub batch_ts_ms : ℤ
  pub send_ts_us : ℤ

pub data Outcome (F : Type 0) : Type 0 where
  skipped : Outcome F
  emitted : Row F → Outcome F

pub record Run (F : Type 0) : Type 0 where
  pub rows : List (Row F)
  pub panicked : Bool

module _ (fl : Float) where
  -- `matches!(quality, Some(q) if q < QUALITY_FLOOR)`, the floor being 0.2
  pub below_floor : Option fl.F → Bool
  below_floor none = false
  below_floor (some q) = fl.lt q (fl.decimal 2 10)

  pub row_of : Batch → Fields fl.F → Text → Option fl.F → Option (Row fl.F)
  unfolding at as_long as_str as_tags try_from
  row_of b e unit quality = at e 0 >>= as_long >>= λ seq_raw. try_from (2 ^ 32) seq_raw >>= λ seq.
      at e 3 >>= as_long >>= λ value. try_from 65536 seq_raw >>= λ event_seq.
      at e 1 >>= as_str >>= λ name. at e 5 >>= as_tags >>= λ tags. some (record {
        batch_id = b.batch_id;
        event_seq = event_seq;
        sensor = b.sensor;
        region = b.region;
        name_upper = ascii_upper name;
        unit = unit;
        value = value;
        value_scaled = value_scaled value seq;
        quality = quality;
        tags = tags;
        batch_ts = b.batch_ts_ms;
        send_ts = b.send_ts_us;
      })

  pub emit_row : Option (Row fl.F) → Option (Outcome fl.F)
  emit_row none = none
  emit_row (some r) = some (emitted r)

  unfoldable pub flatten_event : Batch → AvroValue fl.F → Option (Outcome fl.F)
  unfolding as_record at as_str as_union as_quality below_floor row_of emit_row
  flatten_event b ev = as_record ev >>= λ e. at e 2 >>= as_str >>= λ unit.
      if text_eq unit drop_unit
      then some skipped
      else (at e 4 >>= λ q. as_quality (as_union q) >>= λ quality.
          if below_floor quality then some skipped else emit_row (row_of b e unit quality))

  pub continue : Option (Outcome fl.F) → List (Row fl.F) → (List (Row fl.F) → Run fl.F) → Run fl.F
  continue none done rest = record { rows = done; panicked = true }
  continue (some skipped) done rest = rest done
  continue (some (emitted r)) done rest = rest (done ++ r ∷ [])

  unfoldable pub flatten_events : Batch → List (Row fl.F) → Items fl.F → Run fl.F
  unfolding continue
  flatten_events b done nil = record { rows = done; panicked = false }
  flatten_events b done (cons ev evs) =
      continue (flatten_event b ev) done (λ more. flatten_events b more evs)

  pub open_batch : AvroValue fl.F → Option (Batch × Items fl.F)
  unfolding as_record at as_long as_str as_union or_empty as_items try_from
  open_batch v = as_record v >>= λ rec. at rec 0 >>= as_long >>= try_from (2 ^ 64) >>= λ batch_id.
      at rec 1 >>= as_str >>= λ sensor. at rec 2 >>= λ r. or_empty (as_union r) >>= λ region.
      at rec 3 >>= as_long >>= λ batch_ts_ms. at rec 4 >>= as_long >>= λ send_ts_us.
      at rec 5 >>= as_items >>= λ events. some (
        record {
          batch_id = batch_id;
          sensor = sensor;
          region = region;
          batch_ts_ms = batch_ts_ms;
          send_ts_us = send_ts_us;
        },
        events,
      )

  flatten_opened : Option (Batch × Items fl.F) → Run fl.F
  flatten_opened none = record { rows = []; panicked = true }
  flatten_opened (some (b, events)) = flatten_events b [] events

  unfoldable pub flatten_value : AvroValue fl.F → Run fl.F
  unfolding open_batch flatten_opened
  flatten_value v = flatten_opened (open_batch v)
