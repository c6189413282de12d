-- ===== src/Filter/Floats.antt =====
-- The floating-point operations that the evaluator calls: a parameter, over bit patterns.
use dots_rust.Prelude.{ℕ, Bool, Option, Ordering}

pub record Floats : Type 0 where
  -- `==` and `partial_cmp` of `f32` and of `f64`
  pub eq_f32 : ℕ → ℕ → Bool
  pub eq_f64 : ℕ → ℕ → Bool
  pub partial_cmp_f32 : ℕ → ℕ → Option Ordering
  pub partial_cmp_f64 : ℕ → ℕ → Option Ordering
  -- `v as f32` and `v as f64`
  pub to_f32 : ℕ → ℕ
  pub to_f64 : ℕ → ℕ
