-- ===== src/Ceiling/Encoding/Reader.antt =====
-- Readers of the encodings of harness/src/ceiling.rs, and writers that they read back. The source has
-- the writers alone; the readers state what a ClickHouse server makes of the bytes.
use native.Mathlib.Nat.{pow-suc}
use spate_benchmark.Prelude.{
  ℕ, zero, suc, ◌+◌, ◌*◌, ◌/◌, ◌%◌, ◌^◌, ◌<◌, Option, none, some, List, [], ◌∷◌, ◌++◌, ◌≡◌, refl,
  arith, length, All, append_assoc, append-nil, sym, ◌∙◌, ap,
}
use spate_benchmark.Ceiling.Encoding.Varint.{Bytes}

abbrev pub Get : Type 0 → Type 0
Get A = Bytes → Option (A × Bytes)

abbrev pub bind : {A B : Type 0} → Option (A × Bytes) → (A → Get B) → Option (B × Bytes)
bind none k = none
bind (some (a, t)) k = k a t

-- A writer of the value `a`: it appends bytes that the reader turns into `a`, whatever follows.
abbrev pub Writes : {A : Type 0} → Get A → A → (Bytes → Bytes) → Type 0
Writes get a w =
    (out : Bytes)
    → (bs : Bytes) × (w out ≡ out ++ bs) × ((rest : Bytes) → get (bs ++ rest) ≡ some (a, rest))

pub Writes-bind :
    {A B : Type 0} (get : Get A) (k : A → Get B) (a : A) (b : B) (v w : Bytes → Bytes)
    → Writes get a v
    → Writes (k a) b w
    → Writes (λ bs. bind (get bs) k) b (λ out. w (v out))
Writes-bind get k a b v w hv hw out =
    let (bs, e, reads) = hv out in
    let (cs, f, then_reads) = hw (v out) in
    (
      bs ++ cs,
      f ∙ ap (λ o. o ++ cs) e ∙ append_assoc out bs cs,
      λ rest. rw (append_assoc bs cs rest, reads (cs ++ rest)) (then_reads rest),
    )

pub Writes-pure : {A : Type 0} (a : A) → Writes (λ bs. some (a, bs)) a (λ out. out)
Writes-pure a out = ([], sym (append-nil out), λ rest. refl)

pub get_many : {A : Type 0} → Get A → ℕ → Get (List A)
get_many get zero bs = some ([], bs)
get_many get (suc n) bs = bind (get bs) (λ x t. bind (get_many get n t) (λ xs u. some (x ∷ xs, u)))

pub put_many : {A : Type 0} → (Bytes → A → Bytes) → List A → Bytes → Bytes
put_many put [] out = out
put_many put (x ∷ xs) out = put_many put xs (put out x)

pub Writes-many :
    {A : Type 0} (get : Get A) (put : Bytes → A → Bytes) (xs : List A)
    → All (λ x. Writes get x (λ out. put out x)) xs
    → Writes (get_many get (length xs)) xs (put_many put xs)
unfolding get_many put_many
Writes-many get put [] _ = Writes-pure []
Writes-many get put (x ∷ xs) (h, hs) =
    Writes-bind get _ x (x ∷ xs) (λ out. put out x) (put_many put xs) h
      (Writes-bind (get_many get (length xs)) _ xs (x ∷ xs) (put_many put xs) (λ out. out)
        (Writes-many get put xs hs) (Writes-pure (x ∷ xs)))

-- `to_le_bytes` of a number of `k` bytes.
unfoldable pub le_bytes : ℕ → ℕ → Bytes
le_bytes zero v = []
le_bytes (suc k) v = v % 256 ∷ le_bytes k (v / 256)

pub get_le : ℕ → Get ℕ
get_le zero bs = some (0, bs)
get_le (suc k) [] = none
get_le (suc k) (b ∷ bs) = bind (get_le k bs) (λ v t. some (b + 256 * v, t))

bytes_left : (k v : ℕ) → v < 256 ^ suc k → v / 256 < 256 ^ k
bytes_left k v h = let e = pow-suc 256 k in omega arith

get_le-le_bytes :
    (k v : ℕ) (rest : Bytes) → v < 256 ^ k → get_le k (le_bytes k v ++ rest) ≡ some (v, rest)
unfolding get_le le_bytes
get_le-le_bytes zero v rest h = let e : 0 ≡ v = omega arith in ap (λ n. some (n, rest)) e
get_le-le_bytes (suc k) v rest h =
    let e : v % 256 + 256 * (v / 256) ≡ v = omega arith in
    rw (get_le-le_bytes k (v / 256) rest (bytes_left k v h)) (ap (λ n. some (n, rest)) e)

pub Writes-le : (k v : ℕ) → v < 256 ^ k → Writes (get_le k) v (λ out. out ++ le_bytes k v)
Writes-le k v h out = (le_bytes k v, refl, λ rest. get_le-le_bytes k v rest h)

-- The next bytes, where there are that many.
pub get_bytes : ℕ → Get Bytes
get_bytes zero bs = some ([], bs)
get_bytes (suc n) [] = none
get_bytes (suc n) (b ∷ bs) = bind (get_bytes n bs) (λ xs t. some (b ∷ xs, t))

get_bytes-append : (s rest : Bytes) → get_bytes (length s) (s ++ rest) ≡ some (s, rest)
unfolding get_bytes
get_bytes-append [] rest = refl
get_bytes-append (b ∷ s) rest = rw (get_bytes-append s rest) refl

pub Writes-bytes : (s : Bytes) → Writes (get_bytes (length s)) s (λ out. out ++ s)
Writes-bytes s out = (s, refl, λ rest. get_bytes-append s rest)
