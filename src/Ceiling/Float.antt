-- ===== src/Ceiling/Float.antt =====
-- The `f64` operations of harness/src/ceiling.rs and the corpus. There are no floats here: the type
-- and its operations are a parameter, and a law is a hypothesis where it is used.
use spate_benchmark.Prelude.{ℕ, Bool}

pub record Float : Type 1 where
  pub F : Type 0
  pub of_u64 : ℕ → F  -- `n as f64`
  pub add : F → F → F
  pub sub : F → F → F
  pub mul : F → F → F
  pub div : F → F → F
  pub lt : F → F → Bool  -- `a < b`
  pub le : F → F → Bool  -- `a <= b`
  pub decimal : ℕ → ℕ → F  -- the literal with this numerator over this denominator
  pub to_u64 : F → ℕ  -- `x.round() as u64`
  pub total_le : F → F → Bool  -- `a.total_cmp(&b)` is not `Greater`
