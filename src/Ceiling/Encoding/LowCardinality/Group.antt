-- ===== src/Ceiling/Encoding/LowCardinality/Group.antt =====
-- The bytes of a dictionary, against the reading that a ClickHouse server makes of them.
use spate_benchmark.Prelude.{
  ℕ, zero, suc, ◌-◌, ◌%◌, ◌^◌, ◌<◌, false, Option, none, some, List, [], ◌∷◌, ◌++◌, ◌≡◌, refl,
  arith, length, get_elem?, All, All-map, is_empty, ◌==◌, if◌then◌else◌, append-nil, subst, sym, ap,
}
use spate_benchmark.Ceiling.Encoding.Varint.{Bytes, put_varint, get_varint, get_varint-put_varint}
use spate_benchmark.Ceiling.Encoding.Reader.{
  Get, bind, Writes, Writes-bind, get_many, put_many, Writes-many, le_bytes, get_le, Writes-le,
  get_bytes, Writes-bytes,
}
use spate_benchmark.Ceiling.Encoding.LowCardinality.{
  put_string, IndexWidth, u8, u16, u32, u64, for_dictionary, code, put, Dictionary, new, push_all,
  index_type, write_group, write,
}
use spate_benchmark.Ceiling.Encoding.LowCardinality.Interning.{Decodes, push_all-new}

abbrev pub get_string : Get Bytes
get_string bs = bind (get_varint bs) get_bytes

-- The bytes of an index, by the low byte of the index-type word.
abbrev pub bytes_of : IndexWidth → ℕ
bytes_of u8 = 1
bytes_of u16 = 2
bytes_of u32 = 4
bytes_of u64 = 8

pub width_of : ℕ → Option IndexWidth
width_of t =
    if t == 1536
    then some u8
    else if t == 1537
    then some u16
    else if t == 1538
    then some u32
    else if t == 1539
    then some u64
    else none

abbrev cons_value : Option Bytes → Option (List Bytes) → Option (List Bytes)
cons_value none rest = none
cons_value (some v) none = none
cons_value (some v) (some vs) = some (v ∷ vs)

-- The values at the indexes, where every index is in range.
abbrev pub look_up : List Bytes → List ℕ → Option (List Bytes)
look_up es [] = some []
look_up es (i ∷ is) = cons_value (get_elem? es i) (look_up es is)

abbrev resolved : Option (List Bytes) → Get (List Bytes)
resolved none bs = none
resolved (some vs) bs = some (vs, bs)

abbrev resolve : List Bytes → List ℕ → Get (List Bytes)
resolve es is bs = resolved (look_up es is) bs

abbrev get_indexes : IndexWidth → List Bytes → ℕ → Get (List Bytes)
get_indexes w es count bs = bind (get_many (get_le (bytes_of w)) count bs) (resolve es)

abbrev get_entries : IndexWidth → ℕ → Get (List Bytes)
get_entries w n bs = bind (get_many get_string n bs) (λ es t. bind (get_le 8 t) (get_indexes w es))

abbrev get_typed : Option IndexWidth → Get (List Bytes)
get_typed none bs = none
get_typed (some w) bs = bind (get_le 8 bs) (get_entries w)

-- A whole column: the index-type word, the dictionary and the indexes into it.
abbrev pub get_column : Get (List Bytes)
get_column bs = bind (get_le 8 bs) (λ t. get_typed (width_of t))

abbrev pub IsShort : Bytes → Type 0
IsShort s = length s < 2 ^ 64

put_string-Writes : (s : Bytes) → IsShort s → Writes get_string s (λ out. put_string out s)
unfolding put_string
put_string-Writes s h =
    Writes-bind get_varint get_bytes (length s) s (λ out. put_varint out (length s))
      (λ out. out ++ s) (λ out. get_varint-put_varint out (length s) h) (Writes-bytes s)

put-Writes :
    (w : IndexWidth) (i : ℕ)
    → i < 256 ^ bytes_of w
    → Writes (get_le (bytes_of w)) i (λ out. put w out i)
unfolding put le_bytes
put-Writes u8 i h = Writes-le 1 i h
put-Writes u16 i h = let e : i % 2 ^ 16 ≡ i = omega arith in rw e (Writes-le 2 i h)
put-Writes u32 i h = let e : i % 2 ^ 32 ≡ i = omega arith in rw e (Writes-le 4 i h)
put-Writes u64 i h = Writes-le 8 i h

-- Every index into a dictionary fits the width that is chosen for it.
for_dictionary-fits : (n i : ℕ) → i < n → n < 2 ^ 64 → i < 256 ^ bytes_of (for_dictionary n)
unfolding for_dictionary
for_dictionary-fits n i h top = ground arith

index_type-width_of : (w : IndexWidth) → width_of (index_type w) ≡ some w
unfolding width_of index_type code
index_type-width_of u8 = refl
index_type-width_of u16 = refl
index_type-width_of u32 = refl
index_type-width_of u64 = refl

index_type-bound : (w : IndexWidth) → index_type w < 256 ^ 8
unfolding index_type code
index_type-bound u8 = omega arith
index_type-bound u16 = omega arith
index_type-bound u32 = omega arith
index_type-bound u64 = omega arith

look_up-Decodes :
    (es : List Bytes) (is : List ℕ) (vs : List Bytes) → Decodes es is vs → look_up es is ≡ some vs
look_up-Decodes es [] [] _ = refl
look_up-Decodes es [] (v ∷ vs) h = elim h [ ]
look_up-Decodes es (i ∷ is) [] h = elim h [ ]
look_up-Decodes es (i ∷ is) (v ∷ vs) (at, h) = rw (at, look_up-Decodes es is vs h) refl

in_range : (es : List Bytes) (i : ℕ) (v : Bytes) → get_elem? es i ≡ some v → i < length es
in_range [] i v h = cc
in_range (e ∷ es) zero v h = omega arith
in_range (e ∷ es) (suc i) v h = omega (arith, in_range es i v h)

indexes-Writes :
    (es : List Bytes) (is : List ℕ) (vs : List Bytes)
    → length es < 2 ^ 64
    → Decodes es is vs
    → All
        (λ i.
          Writes
            (get_le (bytes_of (for_dictionary (length es))))
            i
            (λ out. put (for_dictionary (length es)) out i))
        is
indexes-Writes es [] [] top _ = tt
indexes-Writes es [] (v ∷ vs) top h = elim h [ ]
indexes-Writes es (i ∷ is) [] top h = elim h [ ]
indexes-Writes es (i ∷ is) (v ∷ vs) top (at, h) = (
  put-Writes (for_dictionary (length es)) i
      (for_dictionary-fits (length es) i (in_range es i v at) top),
  indexes-Writes es is vs top h,
)

Decodes-length :
    (es : List Bytes) (is : List ℕ) (vs : List Bytes) → Decodes es is vs → length is ≡ length vs
Decodes-length es [] [] _ = refl
Decodes-length es [] (v ∷ vs) h = elim h [ ]
Decodes-length es (i ∷ is) [] h = elim h [ ]
Decodes-length es (i ∷ is) (v ∷ vs) (_, h) = ap suc (Decodes-length es is vs h)

module _ (es : List Bytes) (is : List ℕ) (vs : List Bytes) (h : Decodes es is vs) where
  resolve-Writes : Writes (resolve es is) vs (λ out. out)
  resolve-Writes out =
      ([], sym (append-nil out), λ rest. ap (λ o. resolved o rest) (look_up-Decodes es is vs h))

  module _ (top : length es < 2 ^ 64) (count : length is < 2 ^ 64) (short : All IsShort es) where
    abbrev width : IndexWidth
    width = for_dictionary (length es)

    get_indexes-Writes : Writes (get_indexes width es (length is)) vs (put_many (put width) is)
    get_indexes-Writes =
        Writes-bind (get_many (get_le (bytes_of width)) (length is)) (resolve es) is vs
          (put_many (put width) is) (λ out. out)
          (Writes-many (get_le (bytes_of width)) (put width) is (indexes-Writes es is vs top h))
          resolve-Writes

    get_entries-Writes :
        Writes
          (get_entries width (length es))
          vs
          (λ out. put_many (put width) is (put_many put_string es out ++ le_bytes 8 (length is)))
    get_entries-Writes =
        Writes-bind (get_many get_string (length es)) _ es vs (put_many put_string es)
          (λ out. put_many (put width) is (out ++ le_bytes 8 (length is)))
          (Writes-many get_string put_string es (All-map put_string-Writes es short))
          (Writes-bind (get_le 8) (get_indexes width es) (length is) vs
            (λ out. out ++ le_bytes 8 (length is)) (put_many (put width) is)
            (Writes-le 8 (length is) (omega arith)) get_indexes-Writes)

    get_typed-Writes : Writes (get_typed (some width)) vs (λ out.
        put_many
          (put width)
          is
          (put_many put_string es (out ++ le_bytes 8 (length es)) ++ le_bytes 8 (length is)))
    get_typed-Writes =
        Writes-bind (get_le 8) (get_entries width) (length es) vs
          (λ out. out ++ le_bytes 8 (length es)) _ (Writes-le 8 (length es) (omega arith))
          get_entries-Writes

    get_column-Writes : Writes get_column vs (λ out. put_many (put width) is (
        put_many put_string es ((out ++ le_bytes 8 (index_type width)) ++ le_bytes 8 (length es))
        ++ le_bytes 8 (length is)))
    get_column-Writes =
        Writes-bind (get_le 8) (λ t. get_typed (width_of t)) (index_type width) vs
          (λ out. out ++ le_bytes 8 (index_type width)) _
          (Writes-le 8 (index_type width) (index_type-bound width))
          (subst
            (λ o. Writes (get_typed o) vs (λ out.
              put_many (put width) is
                (put_many put_string es (out ++ le_bytes 8 (length es)) ++ le_bytes 8 (length is))))
            (sym (index_type-width_of width)) get_typed-Writes)

is_empty_lem : (is : List ℕ) → 0 < length is → is_empty is ≡ false
is_empty_lem [] h = ground arith
is_empty_lem (i ∷ is) h = refl

write-nonempty :
    (d : Dictionary) (out : Bytes)
    → 0 < length d.indexes
    → write d out ≡ write_group (for_dictionary (length d.entries)) d out
unfolding write
write-nonempty d out h = simp (is_empty_lem d.indexes h)

-- The bytes of a column that some values were pushed into read back as those values in order,
-- with whatever follows them, and what was written before is kept; the values are fewer than 2^64 - 1
-- and each has fewer than 2^64 bytes.
pub get_column-write :
    (vs : List Bytes)
    → 0 < length vs
    → length vs < 2 ^ 64 - 1
    → All IsShort vs
    → Writes get_column vs (write (push_all new vs))
unfolding write_group
get_column-write vs some_value few short out =
    let d = push_all new vs in
    let holds = push_all-new IsShort vs (omega arith) short in
    let count : length d.indexes ≡ length vs =
      Decodes-length d.entries d.indexes vs holds.decodes in
    rw (write-nonempty d out (omega (arith, count))) (
      get_column-Writes d.entries d.indexes vs holds.decodes (omega (arith, holds.size))
        (omega (arith, count)) holds.small out)
