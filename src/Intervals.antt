-- ===== src/Intervals.antt =====
-- Interval (include/interval.hpp), on numbers of type SizeType.
use opera.Prelude.{ℕ, ◌+◌, ◌&&◌, Bool, leb, ◌==◌, Result, ok, require, ◌>>◌}
use opera.Barrier.{sub64}

pub record Interval (T : Type 0) : Type 0 where
  pub lower : T
  pub upper : T

unfoldable pub construct : ℕ → ℕ → Result (Interval ℕ)
construct lower upper = do require (leb lower upper); ok (record { lower = lower; upper = upper })

unfoldable pub singleton : ℕ → Result (Interval ℕ)
singleton value = construct value value

unfoldable pub set_lower : Interval ℕ → ℕ → Result (Interval ℕ)
set_lower i v = do require (leb v i.upper); ok (record i { lower = v })

unfoldable pub set_upper : Interval ℕ → ℕ → Result (Interval ℕ)
set_upper i v = do require (leb i.lower v); ok (record i { upper = v })

unfoldable pub add_interval : Interval ℕ → Interval ℕ → Result (Interval ℕ)
add_interval i1 i2 = construct (i1.lower + i2.lower) (i1.upper + i2.upper)

unfoldable pub add_scalar : Interval ℕ → ℕ → Result (Interval ℕ)
add_scalar i v = construct (i.lower + v) (i.upper + v)

unfoldable pub subtract_scalar : Interval ℕ → ℕ → Result (Interval ℕ)
subtract_scalar i v = construct (sub64 i.lower v) (sub64 i.upper v)

unfoldable pub interval_eq : Interval ℕ → Interval ℕ → Bool
interval_eq i1 i2 = i1.lower == i2.lower && i1.upper == i2.upper
