-- ===== src/Base/Doubles.antt =====
-- What the program does with a `number` that is not whole. The arithmetic of doubles is not code of the
-- program, so it is an argument of the functions that use it.
use Prim.Native.Nat.{ℕ}
use mathlib.Core.Bool.{Bool}
use crossbill_back.Base.Text.{Text}

pub record Double (W : Type 0) : Type 0 where
  -- `n / 100`, as in a literal with two decimals
  pub of_hundredths : ℕ → W
  -- `x > 0`
  pub is_positive : W → Bool
  -- `x.toFixed(d)`
  pub to_fixed : ℕ → W → Text
  -- `Math.round(x * y * 100)`
  pub product_cents : W → W → ℕ
  -- `Math.round((n / 100) * x * 100)`
  pub scaled_cents : ℕ → W → ℕ
