-- ===== src/Common/Float.antt =====
-- `f64` and what the program uses of it. The type and its operations are the platform's, so they
-- are a parameter; the records of laws say what a theorem relies on.
use traintime_api.Common.{ℕ, Bool, ℤ}

pub record Float64 : Type 1 where
  pub F : Type 0
  -- A literal with no fraction, such as `5000.0`.
  pub lit : ℕ → F
  pub pi : F
  pub add : F → F → F
  pub sub : F → F → F
  pub mul : F → F → F
  pub div : F → F → F
  pub sin : F → F
  pub cos : F → F
  pub sqrt : F → F
  pub round : F → F
  pub powi : F → ℕ → F
  pub atan2 : F → F → F
  -- `<=` and `>`; both are false on a NaN.
  pub le : F → F → Bool
  pub gt : F → F → Bool
  pub is_finite : F → Bool
  -- `as i64`.
  pub to_i64 : F → ℤ
  -- `as f64`.
  pub of_i64 : ℤ → F
