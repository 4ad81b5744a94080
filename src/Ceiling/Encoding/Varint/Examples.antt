-- ===== src/Ceiling/Encoding/Varint/Examples.antt =====
-- Runs of the varint writer.
use spate_benchmark.Prelude.{some, [], ◌∷◌, ◌++◌, ◌≡◌, refl, arith}
use spate_benchmark.Ceiling.Encoding.Varint.{Bytes, put_varint, get_varint, get_varint-put_varint}

three_hundred : put_varint [] 300 ≡ 172 ∷ 2 ∷ []
unfolding put_varint
three_hundred = refl

get_varint-put_varint_example :
    (bs : Bytes) × (put_varint (7 ∷ []) 300 ≡ 7 ∷ bs)
    × ((rest : Bytes) → get_varint (bs ++ rest) ≡ some (300, rest))
get_varint-put_varint_example = get_varint-put_varint (7 ∷ []) 300 (omega arith)
