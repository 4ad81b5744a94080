-- ===== src/Jvm.antt =====
-- harness/src/jvm.rs: what a collector's log says of an arm's pauses. The data, the decorations of a
-- line and the sizes; Jvm/Lines has the reading of one line, Jvm/Log that of a log, and Jvm/Summary the
-- distribution of the pauses. A message of an error is the data that it shows.
pub mod Lines
pub mod Log
pub mod Summary
use spate_benchmark.Prelude.{
  subst, ◌≡◌, ℕ, ◌+◌, ◌*◌, ◌^◌, Bool, true, false, Option, none, some, List, [], ◌∷◌, ◌++◌, map,
  Text, codes, ◌==◌, if◌then◌else◌, any, text_eq,
}
use spate_benchmark.Prelude.Strings.{trim, strip_suffix, parse_u64}
use spate_benchmark.Selector.Split.{split, split_once}
use spate_benchmark.Ceiling.Float.{Float}

-- What the language reads of floats and characters, beside the operations of `f64`.
pub record Reading (F : Type 0) : Type 0 where
  pub parse : Text → Option F  -- `s.parse::<f64>().ok()`
  pub trunc : F → ℕ  -- `x as u64`
  pub ceil : F → ℕ  -- `x.ceil() as usize`
  pub is_alphanumeric : ℕ → Bool  -- `char::is_alphanumeric`

pub data Why : Type 0 where
  no_duration : Why

pub data JvmError : Type 0 where
  log_unavailable : Text → Text → Text → JvmError
  read_failed : Text → JvmError
  not_unified_logging : ℕ → JvmError
  no_gc_tagged_lines : ℕ → JvmError
  no_collector_initialised : ℕ → ℕ → JvmError
  unparseable_pause : Text → Why → JvmError
  unparseable_size : Text → Text → JvmError
  no_uptime_decoration : JvmError

pub data Result {ℓ} (A : Type ℓ) : Type ℓ where
  ok : A → Result A
  err : JvmError → Result A

-- What an `ok` carries has the property.
abbrev pub Holds {ℓ} : {A : Type ℓ} → (A → Type 0) → Result A → Type 0
Holds P (ok a) = P a
Holds P (err e) = Unit

pub Holds-map {ℓ} :
    {A : Type ℓ} (P Q : A → Type 0) (f : (a : A) → P a → Q a) (r : Result A) → Holds P r → Holds Q r
Holds-map P Q f (ok a) h = f a h
Holds-map P Q f (err e) h = tt

pub Holds-ok {ℓ} : {A : Type ℓ} (P : A → Type 0) (r : Result A) (a : A) → Holds P r → r ≡ ok a → P a
Holds-ok P r a h e = subst (Holds P) e h

pub record HeapTriple : Type 0 where
  pub before_bytes : ℕ
  pub after_bytes : ℕ
  pub capacity_bytes : ℕ

pub record Pause (F : Type 0) : Type 0 where
  pub gc_id : Option ℕ
  pub uptime_s : Option F
  pub generation : Option Text
  pub label : Text
  pub us : F
  pub heap : Option HeapTriple

pub record HeapConfig : Type 0 where
  pub collector : Option Text
  pub version : Option Text
  pub initial_bytes : Option ℕ
  pub min_bytes : Option ℕ
  pub max_bytes : Option ℕ

pub record GcLog (F : Type 0) : Type 0 where
  pub pauses : List (Pause F)
  pub heap : HeapConfig
  pub decorated_lines : ℕ
  pub gc_lines : ℕ
  pub foreign_lines : ℕ

pub record Decorated (F : Type 0) : Type 0 where
  pub uptime_s : Option F
  pub tags : List Text
  pub message : Text

pub has_tag : {F : Type 0} → Text → Decorated F → Bool
has_tag tag line = any (text_eq tag) line.tags

abbrev cons_field : Text → Option (List Text × Text) → Option (List Text × Text)
cons_field field none = none
cons_field field (some (fields, rest)) = some (trim field ∷ fields, rest)

-- The leading groups in brackets, trimmed, and what follows them; `inside` has the group so far. A
-- group that is not closed gives nothing.
mutual
  pub groups : Text → Option (List Text × Text)
  groups [] = some ([], [])
  groups (c ∷ s) = let more = inside [] s in if c == b'[' then more else some ([], c ∷ s)

  pub inside : Text → Text → Option (List Text × Text)
  inside field [] = none
  inside field (c ∷ s) =
      let closed = cons_field field (groups s) in
      let more = inside (field ++ c ∷ []) s in if c == b']' then closed else more

-- `fields.pop()`: the fields before the last, and the last.
pub pop : Text → List Text → List Text × Text
pop f [] = ([], f)
pop f (g ∷ gs) = (f ∷ (pop g gs).0, (pop g gs).1)

abbrev levels : List Text
levels =
    codes "off"
    ∷ codes "trace"
    ∷ codes "debug"
    ∷ codes "info"
    ∷ codes "warning"
    ∷ codes "error"
    ∷ []

module _ (fl : Float) (reading : Reading fl.F) where
  open fl use {F, of_u64, mul, lt, decimal}

  parse_seconds : Option Text → Option F
  parse_seconds none = none
  parse_seconds (some s) = reading.parse s

  pub parse_uptime : Text → Option F
  unfolding parse_seconds
  parse_uptime field =
      if any (text_eq field) levels then none else parse_seconds (strip_suffix (codes "s") field)

  -- `fields.iter().find_map(|f| parse_uptime(f))`
  pub first_uptime : List Text → Option F
  first_uptime [] = none
  first_uptime (f ∷ fs) = elim (parse_uptime f) [ none ↦ first_uptime fs | some u ↦ some u ]

  decorated : Option (List Text × Text) → Option (Decorated F)
  decorated none = none
  decorated (some ([], rest)) = none
  decorated (some (f ∷ fs, rest)) = some (record {
    uptime_s = first_uptime ((pop f fs).0);
    tags = map trim (split b',' (pop f fs).1);
    message = trim rest;
  })

  -- `Decorated::parse`
  pub parse_decorated : Text → Option (Decorated F)
  unfolding decorated
  parse_decorated line = decorated (groups line)

  abbrev scale : ℕ → Option ℕ
  scale c =
      if c == b'B'
      then some 1
      else if c == b'K'
      then some 1024
      else if c == b'M'
      then some (1024 * 1024)
      else if c == b'G'
      then some (1024 * 1024 * 1024)
      else if c == b'T'
      then some (1024 ^ 4)
      else none

  scaled : Option F → ℕ → Option ℕ
  scaled none unit = none
  scaled (some v) unit =
      if lt v (decimal 0 1) then none else some (reading.trunc (mul v (of_u64 unit)))

  size_of : Option ℕ → Text → Option ℕ
  unfolding scaled
  size_of none digits = none
  size_of (some unit) digits = scaled (reading.parse digits) unit

  -- The text before the last character, and the last.
  last_char : ℕ → Text → Text × ℕ
  last_char c [] = ([], c)
  last_char c (d ∷ s) = (c ∷ (last_char d s).0, (last_char d s).1)

  size_token : Text → Option ℕ
  unfolding size_of last_char
  size_token [] = none
  size_token (c ∷ s) = size_of (scale (last_char c s).1) (last_char c s).0

  pub parse_size : Text → Option ℕ
  unfolding size_token
  parse_size token = size_token (trim token)
