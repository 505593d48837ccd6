-- ===== src/Libc/Double.antt =====
-- Floating-point numbers as the modelled sources use them.
use re_co_mon_b.Base.{ℕ, Bool}

pub record Doubles : Type 1 where
  pub Double : Type 0
  pub zero_dbl : Double
  -- conversions of an unsigned 64-bit number, and of a signed one given by its two's complement
  pub of_u64 : ℕ → Double
  pub of_i64 : ℕ → Double
  pub add : Double → Double → Double
  pub div : Double → Double → Double
  pub mul : Double → Double → Double
  -- `!d`
  pub is_zero : Double → Bool
  -- `d < 0`
  pub is_negative : Double → Bool
