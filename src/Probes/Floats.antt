-- ===== src/Probes/Floats.antt =====
-- The `f64` of Rust, as far as server/src/measurements.rs uses it: a parameter. Nothing is assumed of
-- its arithmetic, so that what is proved holds with every rounding.
use netpoke.Prelude.{ℕ, Bool, List}

pub record Floats : Type 1 where
  pub F : Type 0
  pub zero : F
  pub hundred : F
  pub of_nat : ℕ → F
  -- `(a as i64 - b as i64) as f64`
  pub of_difference : ℕ → ℕ → F
  pub add : F → F → F
  pub sub : F → F → F
  pub mul : F → F → F
  pub div : F → F → F
  pub sqrt : F → F
  pub abs : F → F
  pub max : F → F → F
  pub lt : F → F → Bool
  -- `sort_by` of the standard library with `partial_cmp`
  pub sort : List F → List F
