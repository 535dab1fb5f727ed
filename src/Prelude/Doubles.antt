-- ===== src/Prelude/Doubles.antt =====
-- `FloatType` (include/declarations.hpp) is the machine's `double`, which this library takes as a
-- parameter: a type with the comparisons that the code makes, and the order that the IEEE standard
-- gives them on values that are no NaN.
use mathlib.Core.Path.{◌≡◌}
use mathlib.Core.Bool.{Bool, true, false, not}
use native.Mathlib.Omega.{arith}

pub record Doubles (F : Type 0) : Type 0 where
  pub zero : F
  pub infinity : F
  -- a < b, a <= b, a == b
  pub lt : F → F → Bool
  pub le : F → F → Bool
  pub eq : F → F → Bool

-- The order on the values that are no NaN.
pub record IsOrdered {F : Type 0} (d : Doubles F) : Type 0 where
  pub le_refl : (a : F) → d.le a a ≡ true
  pub le_trans : (a b c : F) → d.le a b ≡ true → d.le b c ≡ true → d.le a c ≡ true
  pub le_antisymm : (a b : F) → d.le a b ≡ true → d.le b a ≡ true → a ≡ b
  pub lt_not_le : (a b : F) → d.lt a b ≡ not (d.le b a)
  pub le_total : (a b : F) → d.le a b ≡ false → d.le b a ≡ true
  pub eq_sound : (a b : F) → d.eq a b ≡ true → a ≡ b
  pub eq_refl : (a : F) → d.eq a a ≡ true
  pub le_infinity : (a : F) → d.le a d.infinity ≡ true

module _ {F : Type 0} ⦃d : Doubles F⦄ (o : IsOrdered d) where
  pub lt_le : (a b : F) → d.lt a b ≡ true → d.le a b ≡ true
  lt_le a b h = ground (arith, o.lt_not_le a b, o.le_total b a)

  pub not_lt_le : (a b : F) → d.lt a b ≡ false → d.le b a ≡ true
  not_lt_le a b h = ground (arith, o.lt_not_le a b)
