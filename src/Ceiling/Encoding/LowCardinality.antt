-- ===== src/Ceiling/Encoding/LowCardinality.antt =====
-- `IndexWidth` and `Dictionary` of harness/src/ceiling.rs: a `LowCardinality(String)` column as a
-- dictionary and an index per value. A string here is the list of its bytes.
pub mod Interning
pub mod Group
mod Examples
use spate_benchmark.Prelude.{
  ℕ, zero, suc, ◌+◌, ◌-◌, ◌%◌, ◌^◌, Option, none, some, List, [], ◌∷◌, ◌++◌, leb, if◌then◌else◌,
  text_eq, length, is_empty,
}
use spate_benchmark.Ceiling.Encoding.Varint.{Bytes, put_varint}
use spate_benchmark.Ceiling.Encoding.Reader.{le_bytes, put_many}

pub put_string : Bytes → Bytes → Bytes
put_string out s = put_varint out (length s) ++ s

pub data IndexWidth : Type 0 where
  u8 : IndexWidth
  u16 : IndexWidth
  u32 : IndexWidth
  u64 : IndexWidth

-- The subtraction saturates, as the source's does.
pub for_dictionary : ℕ → IndexWidth
for_dictionary entries =
    if leb (entries - 1) (2 ^ 8 - 1)
    then u8
    else if leb (entries - 1) (2 ^ 16 - 1)
    then u16
    else if leb (entries - 1) (2 ^ 32 - 1)
    then u32
    else u64

pub code : IndexWidth → ℕ
code u8 = 0
code u16 = 1
code u32 = 2
code u64 = 3

-- `index as u8` and the like keep the low bytes.
pub put : IndexWidth → Bytes → ℕ → Bytes
put u8 out index = out ++ (index % 2 ^ 8) ∷ []
put u16 out index = out ++ le_bytes 2 (index % 2 ^ 16)
put u32 out index = out ++ le_bytes 4 (index % 2 ^ 32)
put u64 out index = out ++ le_bytes 8 index

pub record Dictionary : Type 0 where
  pub entries : List Bytes
  pub positions : List (Bytes × ℕ)
  pub indexes : List ℕ

pub new : Dictionary
new = record { entries = [] ∷ []; positions = ([], 0) ∷ []; indexes = [] }

-- `positions.get(value)`
pub position : Bytes → List (Bytes × ℕ) → Option ℕ
position value [] = none
position value ((key, at) ∷ ps) =
    let rest = position value ps in if text_eq key value then some at else rest

pub push_found : Option ℕ → Dictionary → Bytes → Dictionary
push_found (some at) d value = record {
  entries = d.entries;
  positions = d.positions;
  indexes = d.indexes ++ at ∷ [];
}
push_found none d value = record {
  entries = d.entries ++ value ∷ [];
  positions = (value, length d.entries) ∷ d.positions;
  indexes = d.indexes ++ length d.entries ∷ [];
}

pub push : Dictionary → Bytes → Dictionary
push d value = push_found (position value d.positions) d value

-- A column of a block: every value is pushed in order.
pub push_all : Dictionary → List Bytes → Dictionary
push_all d [] = d
push_all d (value ∷ vs) = push_all (push d value) vs

-- `width.code() | LOW_CARDINALITY_INDEX_FLAGS`, whose bits 9 and 10 no code has.
pub index_type : IndexWidth → ℕ
index_type width = code width + (2 ^ 9 + 2 ^ 10)

write_group : IndexWidth → Dictionary → Bytes → Bytes
write_group width d out =
    let typed = out ++ le_bytes 8 (index_type width) in
    let sized = typed ++ le_bytes 8 (length d.entries) in
    let filled = put_many put_string d.entries sized in
    put_many (put width) d.indexes (filled ++ le_bytes 8 (length d.indexes))

pub write : Dictionary → Bytes → Bytes
unfolding write_group
write d out =
    if is_empty d.indexes then out else write_group (for_dictionary (length d.entries)) d out
