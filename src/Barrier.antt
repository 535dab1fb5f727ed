-- ===== src/Barrier.antt =====
-- MinimumDistanceBarrier (include/barrier.hpp, src/barrier.cpp): a distance and the range of
-- trace-sample indexes where it is the minimum one.
pub mod Gap
mod Tests
use opera.Prelude.{
  ℕ, zero, suc, ◌+◌, ◌-◌, ◌%◌, ◌^◌, Bool, ltb, if◌then◌else◌, Result, ok, err, out_of_fuel, ◌>>=◌,
}
use opera.Prelude.Doubles.{Doubles}
use opera.TraceSampleRange.{TraceSampleRange, TraceSampleIndex}
use opera.TraceSampleRange

pub record MinimumDistanceBarrier (F : Type 0) : Type 0 where
  pub minimum_distance : F
  pub range : TraceSampleRange

-- a - b on SizeType
abbrev pub sub64 : ℕ → ℕ → ℕ
sub64 a b = (a + 2 ^ 64 - b) % 2 ^ 64

-- The loop of `update_with`: the bound of `i` is computed again each round.
unfoldable pub fill_loop : ℕ → ℕ → ℕ → TraceSampleRange → Result TraceSampleRange
fill_loop zero i trace r = err out_of_fuel
fill_loop (suc fuel) i trace r =
    let rest = fill_loop fuel (i + 1) trace (TraceSampleRange.increase_trace_index r) in
    TraceSampleRange.maximum_trace_index r >>= λ last.
    if ltb i (sub64 trace last) then rest else ok r

module _ {F : Type 0} where
  unfoldable pub update_with :
      MinimumDistanceBarrier F → TraceSampleIndex → Result (MinimumDistanceBarrier F)
  update_with b index = do
    last ← TraceSampleRange.maximum_trace_index b.range
    if ltb last index.trace
        then (fill_loop (suc index.trace) 0 index.trace b.range >>= λ r.
            ok (record b { range = r }))
        else (TraceSampleRange.update b.range index.sample >>= λ r. ok (record b { range = r }))

  unfoldable pub scale_down_range_of :
      MinimumDistanceBarrier F → ℕ → Result (MinimumDistanceBarrier F)
  scale_down_range_of b amount = do
    r ← TraceSampleRange.scale_down_trace_of b.range amount
    ok (record b { range = r })

  unfoldable pub trim_down_range_to :
      MinimumDistanceBarrier F → ℕ → Result (MinimumDistanceBarrier F)
  trim_down_range_to b index_bound = do
    r ← TraceSampleRange.trim_down_trace_to b.range index_bound
    ok (record b { range = r })

module _ {F : Type 0} ⦃d : Doubles F⦄ where
  unfoldable pub is_collision : MinimumDistanceBarrier F → Bool
  is_collision b = d.eq b.minimum_distance d.zero
