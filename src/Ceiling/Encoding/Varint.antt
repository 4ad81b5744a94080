-- ===== src/Ceiling/Encoding/Varint.antt =====
-- `put_varint` and `put_string`, against the LEB128 reading of a ClickHouse client.
mod Examples
use native.Mathlib.Nat.{pow-suc}
use spate_benchmark.Prelude.{
  ℕ, zero, suc, ◌+◌, ◌-◌, ◌*◌, ◌/◌, ◌%◌, ◌^◌, ◌≤◌, ◌<◌, Bool, true, false, Option, none, some, List,
  [], ◌∷◌, ◌++◌, ◌≡◌, refl, arith, ltb, ◌==◌, if◌then◌else◌, length, All, append_assoc, append-nil,
  sym, ==_iff, Bool-cases, inl, inr,
}

abbrev pub Bytes : Type 0
Bytes = List ℕ

-- `v & 0x7f`, `v >>= 7` and `byte | 0x80`, whose bit is clear in `byte`. Ten rounds are enough for a
-- `u64`; the loop is on fuel.
varint_loop : ℕ → Bytes → ℕ → Bytes
varint_loop zero out v = out
varint_loop (suc fuel) out v =
    let byte = v % 128 in
    let rest = varint_loop fuel (out ++ (byte + 128) ∷ []) (v / 128) in
    if v / 128 == 0 then out ++ byte ∷ [] else rest

unfoldable pub put_varint : Bytes → ℕ → Bytes
unfolding varint_loop
put_varint out v = varint_loop 10 out v

-- What a reader makes of the bytes: seven bits each, low ones first, until the top bit is clear.
unfoldable pub get_varint : Bytes → Option (ℕ × Bytes)
get_varint [] = none
get_varint (b ∷ bs) =
    let rest = get_varint bs in
    if ltb b 128
    then some (b, bs)
    else elim rest [ none ↦ none | some (v, t) ↦ some (b - 128 + 128 * v, t) ]

varint_loop_out :
    (fuel : ℕ) (out : Bytes) (v : ℕ) → varint_loop fuel out v ≡ out ++ varint_loop fuel [] v
unfolding varint_loop
varint_loop_out zero out v = sym (append-nil out)
varint_loop_out (suc fuel) out v = elim (Bool-cases (v / 128 == 0)) [
  | inl last ↦ rw last refl
  | inr more ↦ rw more (
      let b = v % 128 + 128 in
      rw (varint_loop_out fuel (out ++ b ∷ []) (v / 128), varint_loop_out fuel (b ∷ []) (v / 128))
        (append_assoc out (b ∷ []) (varint_loop fuel [] (v / 128))))
]

read_last : (v : ℕ) (rest : Bytes) → v / 128 ≡ 0 → get_varint (v % 128 ∷ rest) ≡ some (v, rest)
unfolding get_varint
read_last v rest h = ground arith

read_more :
    (v : ℕ) (bs rest : Bytes)
    → get_varint bs ≡ some (v / 128, rest)
    → get_varint ((v % 128 + 128) ∷ bs) ≡ some (v, rest)
unfolding get_varint
read_more v bs rest h = ground arith

fuel_left : (v fuel : ℕ) → v < 128 ^ suc fuel → v / 128 < 128 ^ fuel
fuel_left v fuel h = let e = pow-suc 128 fuel in omega arith

get_varint-loop :
    (fuel v : ℕ) (rest : Bytes)
    → v < 128 ^ suc fuel
    → get_varint (varint_loop (suc fuel) [] v ++ rest) ≡ some (v, rest)
unfolding varint_loop
get_varint-loop zero v rest h =
    let small : v / 128 ≡ 0 = omega arith in
    rw ((==_iff (v / 128) 0).1 small) (read_last v rest small)
get_varint-loop (suc fuel) v rest h = elim (Bool-cases (v / 128 == 0)) [
  | inl last ↦ rw last (read_last v rest ((==_iff (v / 128) 0).0 last))
  | inr more ↦
      rw (more, varint_loop_out (suc fuel) ((v % 128 + 128) ∷ []) (v / 128))
        (read_more v _ rest (get_varint-loop fuel (v / 128) rest (fuel_left v (suc fuel) h)))
]

-- Every `u64` is read back from its varint, with whatever follows it, and what was written before it
-- is kept.
pub get_varint-put_varint :
    (out : Bytes) (v : ℕ)
    → v < 2 ^ 64
    → (bs : Bytes) × (put_varint out v ≡ out ++ bs)
      × ((rest : Bytes) → get_varint (bs ++ rest) ≡ some (v, rest))
unfolding put_varint
get_varint-put_varint out v h =
    (varint_loop 10 [] v, varint_loop_out 10 out v, λ rest. get_varint-loop 9 v rest (omega arith))
