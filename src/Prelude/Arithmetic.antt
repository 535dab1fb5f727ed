-- ===== src/Prelude/Arithmetic.antt =====
-- The arithmetic of `FloatType` (include/declarations.hpp) beside its comparisons: the operations
-- of the machine's `double` and of <cmath> that the code calls.
use Prim.Native.Nat.{ℕ}
use mathlib.Core.Path.{◌≡◌}
use mathlib.Core.Bool.{Bool, true}
use opera.Prelude.Doubles.{Doubles}

pub record Arithmetic (F : Type 0) : Type 0 where
  pub add : F → F → F
  pub sub : F → F → F
  pub mul : F → F → F
  pub div : F → F → F
  pub neg : F → F
  pub abs : F → F
  pub sqrt : F → F
  pub pow2 : F → F
  pub of_nat : ℕ → F
  -- static_cast<SizeType>(floor(x))
  pub floor : F → ℕ
  -- NAN and std::isnan
  pub nan : F
  pub isnan : F → Bool
  -- 1e-6 and 0.05
  pub small_value : F
  pub convergence_threshold : F

-- What the geometry relies on, for values that are no NaN: one and the small value are positive,
-- squares and sums of such are not negative.
pub record IsPositive {F : Type 0} (d : Doubles F) (a : Arithmetic F) : Type 0 where
  pub zero_le_one : d.le d.zero (a.of_nat 1) ≡ true
  pub zero_le_small : d.le d.zero a.small_value ≡ true
  pub square_nonneg : (x : F) → d.le d.zero (a.mul x x) ≡ true
  pub add_nonneg :
      (x y : F) → d.le d.zero x ≡ true → d.le d.zero y ≡ true → d.le d.zero (a.add x y) ≡ true
