-- ===== src/Ceiling/Partitions.antt =====
-- `partition_split` and the thread check of harness/src/ceiling.rs.
mod Examples
use native.Mathlib.Nat.{mod-lt, mod-eq_of_lt}
use spate_benchmark.Prelude.Int.{ℤ, pos, pos_part}
use spate_benchmark.Prelude.{
  ℕ, zero, suc, ◌+◌, ◌-◌, ◌*◌, ◌/◌, ◌%◌, ◌≤◌, ◌<◌, max, Bool, true, false, Option, none, some, List,
  [], ◌∷◌, ◌++◌, ◌≡◌, refl, arith, ltb, ◌==◌, if◌then◌else◌, length, length-append, ◌∙◌, ◌&&◌, ◌||◌,
  is_empty, sym, ==_iff, any-append, ap, get_elem?, any, All, Bool-cases, inl, inr,
}

-- `split[i].push(p)`; a push out of range is a panic in the source, which `partition_split` rules out.
push_at : List (List ℕ) → ℕ → ℕ → List (List ℕ)
push_at [] i p = []
push_at (c ∷ cs) zero p = (c ++ p ∷ []) ∷ cs
push_at (c ∷ cs) (suc i) p = c ∷ push_at cs i p

empties : ℕ → List (List ℕ)
empties zero = []
empties (suc n) = [] ∷ empties n

-- The partitions below `k` dealt to `threads` lists.
deal : ℕ → ℕ → List (List ℕ)
unfolding push_at empties
deal threads zero = empties threads
deal threads (suc k) = push_at (deal threads k) (k % threads) k

-- `0..partitions` is empty when the `i32` is negative.
pub partition_split : ℕ → ℤ → List (List ℕ)
unfolding deal
partition_split threads partitions = deal (max threads 1) (pos_part partitions)

-- `none` for a refusal. `u64::try_from(partitions).unwrap_or(0)` is the positive part.
pub consume_threads_fit_partitions : ℕ → ℤ → Option (Unit {0})
consume_threads_fit_partitions threads partitions =
    if ltb (pos_part partitions) threads then none else some tt

-- The partitions of consumer `i`.
abbrev pub assigned : List (List ℕ) → ℕ → List ℕ
assigned [] i = []
assigned (c ∷ cs) zero = c
assigned (c ∷ cs) (suc i) = assigned cs i

abbrev pub contains : List ℕ → ℕ → Bool
contains c p = any (λ q. q == p) c

abbrev pub total : List (List ℕ) → ℕ
total [] = 0
total (c ∷ cs) = length c + total cs

length-push_at : (cs : List (List ℕ)) (i k : ℕ) → length (push_at cs i k) ≡ length cs
unfolding push_at
length-push_at [] i k = refl
length-push_at (c ∷ cs) zero k = refl
length-push_at (c ∷ cs) (suc i) k = ap suc (length-push_at cs i k)

total-push_at :
    (cs : List (List ℕ)) (i k : ℕ) → i < length cs → total (push_at cs i k) ≡ total cs + 1
unfolding push_at
total-push_at [] i k h = elim h [ ]
total-push_at (c ∷ cs) zero k h = omega (arith, length-append c (k ∷ []))
total-push_at (c ∷ cs) (suc i) k h = omega (arith, total-push_at cs i k (omega arith))

assigned-push_at :
    (cs : List (List ℕ)) (i j k : ℕ)
    → i < length cs
    → assigned (push_at cs i k) j ≡ (if i == j then assigned cs j ++ k ∷ [] else assigned cs j)
unfolding push_at
assigned-push_at [] i j k h = elim h [ ]
assigned-push_at (c ∷ cs) zero zero k h = refl
assigned-push_at (c ∷ cs) zero (suc j) k h = ground arith
assigned-push_at (c ∷ cs) (suc i) zero k h = ground arith
assigned-push_at (c ∷ cs) (suc i) (suc j) k h = ground (arith, assigned-push_at cs i j k)

length-empties : (n : ℕ) → length (empties n) ≡ n
unfolding empties
length-empties zero = refl
length-empties (suc n) = ap suc (length-empties n)

total-empties : (n : ℕ) → total (empties n) ≡ 0
unfolding empties
total-empties zero = refl
total-empties (suc n) = omega (arith, total-empties n)

assigned-empties : (n j : ℕ) → assigned (empties n) j ≡ []
unfolding empties
assigned-empties zero j = refl
assigned-empties (suc n) zero = refl
assigned-empties (suc n) (suc j) = assigned-empties n j

contains-if :
    (c : List ℕ) (b : Bool) (k p : ℕ)
    → contains (if b then c ++ k ∷ [] else c) p ≡ (contains c p || (b && (k == p)))
contains-if c true k p = ground (arith, any-append (λ q. q == p) c (k ∷ []))
contains-if c false k p = ground arith

one_more :
    (p k q m i : ℕ)
    → (p ≡ k → q ≡ m)
    → ((ltb p k && (q == i)) || ((m == i) && (k == p))) ≡ (ltb p (suc k) && (q == i))
one_more p k q m i same = elim (Bool-cases (k == p)) [
  | inl e ↦ let eq : p ≡ k = sym ((==_iff k p).0 e) in ground (arith, same eq)
  | inr n ↦ ground arith
]

module _ (threads : ℕ) (some_thread : 1 ≤ threads) where
  length-deal : (k : ℕ) → length (deal threads k) ≡ threads
  unfolding deal
  length-deal zero = length-empties threads
  length-deal (suc k) = length-push_at (deal threads k) (k % threads) k ∙ length-deal k

  in_range : (k : ℕ) → k % threads < length (deal threads k)
  in_range k = rw length-deal (mod-lt k some_thread)

  total-deal : (k : ℕ) → total (deal threads k) ≡ k
  unfolding deal
  total-deal zero = total-empties threads
  total-deal (suc k) =
      omega (arith, total-push_at (deal threads k) (k % threads) k (in_range k), total-deal k)

  contains-deal :
      (k i p : ℕ) → contains (assigned (deal threads k) i) p ≡ (ltb p k && (p % threads == i))
  unfolding deal
  contains-deal zero i p = rw (assigned-empties threads i) (ground arith)
  contains-deal (suc k) i p =
      rw (assigned-push_at (deal threads k) (k % threads) i k (in_range k)) (
        contains-if (assigned (deal threads k) i) (k % threads == i) k p
        ∙ ap (λ (b : Bool). b || ((k % threads == i) && (k == p))) (contains-deal k i p)
        ∙ one_more p k (p % threads) (k % threads) i (λ e. ap (λ (x : ℕ). x % threads) e))

-- Every consumer gets exactly the partitions that are its number modulo the threads: each partition of
-- the topic goes to one consumer and to no other.
pub split_contains :
    (threads : ℕ) (partitions : ℤ) (i p : ℕ)
    → contains (assigned (partition_split threads partitions) i) p
      ≡ (ltb p (pos_part partitions) && (p % max threads 1 == i))
unfolding partition_split
split_contains threads partitions i p =
    contains-deal (max threads 1) (omega arith) (pos_part partitions) i p

-- There is a list for each thread, and the lists hold as many entries as the topic has partitions, so
-- none holds a partition twice.
pub split_total :
    (threads : ℕ) (partitions : ℤ)
    → (length (partition_split threads partitions) ≡ max threads 1)
      × (total (partition_split threads partitions) ≡ pos_part partitions)
unfolding partition_split
split_total threads partitions = (
  length-deal (max threads 1) (omega arith) (pos_part partitions),
  total-deal (max threads 1) (omega arith) (pos_part partitions),
)

contains-nonempty : (c : List ℕ) (p : ℕ) → contains c p ≡ true → is_empty c ≡ false
contains-nonempty [] p h = cc
contains-nonempty (q ∷ c) p h = refl

-- With a thread count that passes the check, no consumer is idle.
pub fit_no_idle :
    (threads i : ℕ) (partitions : ℤ)
    → consume_threads_fit_partitions threads partitions ≡ some tt
    → i < threads
    → is_empty (assigned (partition_split threads partitions) i) ≡ false
unfolding consume_threads_fit_partitions
fit_no_idle threads i partitions fits h = contains-nonempty _ i (
    split_contains threads partitions i i
    ∙ rw (mod-eq_of_lt {n = i} {m = max threads 1} (omega arith)) (ground arith))
