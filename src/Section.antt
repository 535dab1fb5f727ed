-- ===== src/Section.antt =====
-- MinimumDistanceBarrierSequenceSectionBase (include/barrier.hpp, src/barrier.cpp): the barriers of
-- one human sample. The two distances that the class leaves to its subclasses are a parameter.
pub mod Reset
pub mod Search
pub mod Descending
pub mod Minimum
pub mod Ranges
pub mod Trimming
pub mod Following
pub mod Resetting
pub mod Stepping
pub mod Kinds
mod Tests
use opera.Prelude.{
  ℕ, zero, suc, ◌+◌, ◌-◌, ◌/◌, List, [], ◌∷◌, ◌++◌, Option, none, some, Bool, true, false, ◌&&◌,
  ◌||◌, not, ltb, leb, ◌==◌, if◌then◌else◌, Result, ok, err, undefined, out_of_fuel, require, ◌>>=◌,
  ◌>>◌, length, is_nil, at, back, drop, drop_last, set_back,
}
use opera.Prelude.Doubles.{Doubles}
use opera.TraceSampleRange
use opera.TraceSampleRange.{TraceSampleIndex, TraceSampleRange}
use opera.Barrier.{
  MinimumDistanceBarrier, update_with, trim_down_range_to, scale_down_range_of, is_collision,
}

-- The virtual methods that a subclass defines.
pub record SectionKind (S F : Type 0) : Type 0 where
  pub maximum_human_human_distance : S → S → F
  pub minimum_human_robot_distance : S → S → F

pub record Section (S F : Type 0) : Type 0 where
  pub human_sample : S
  pub barriers : List (MinimumDistanceBarrier F)

module _ {S F : Type 0} where
  unfoldable pub construct : S → Section S F
  construct human_sample = record { human_sample = human_sample; barriers = [] }

  unfoldable pub barrier : Section S F → ℕ → Result (MinimumDistanceBarrier F)
  barrier s idx = at s.barriers idx

  -- On an empty deque the index wraps around, and lies out of range as 0 does.
  unfoldable pub last_barrier : Section S F → Result (MinimumDistanceBarrier F)
  last_barrier s = at s.barriers (length s.barriers - 1)

  unfoldable pub is_empty : Section S F → Bool
  is_empty s = is_nil s.barriers

  unfoldable pub size : Section S F → ℕ
  size s = length s.barriers

  unfoldable pub last_upper_trace_index : Section S F → Result ℕ
  last_upper_trace_index s =
      if is_empty s
      then ok 0
      else (last_barrier s >>= λ b. TraceSampleRange.maximum_trace_index b.range)

  unfoldable pub add_barrier : Section S F → F → TraceSampleRange → Section S F
  add_barrier s minimum_distance range = record s {
    barriers = s.barriers ++ record { minimum_distance = minimum_distance; range = range } ∷ [];
  }

  unfoldable pub remove_first_barrier : Section S F → Result (Section S F)
  remove_first_barrier s = do
    require (not (is_empty s))
    ok (record s { barriers = drop 1 s.barriers })

  unfoldable pub remove_last_barrier : Section S F → Result (Section S F)
  remove_last_barrier s = do
    require (not (is_empty s))
    ok (record s { barriers = drop_last s.barriers })

  unfoldable pub clear : Section S F → Section S F
  clear s = record s { barriers = [] }

module _ {S F : Type 0} ⦃d : Doubles F⦄ where
  unfoldable pub reaches_collision : Section S F → Result Bool
  reaches_collision s =
      if is_empty s then ok false else (last_barrier s >>= λ b. ok (is_collision b))

  unfoldable pub current_minimum_distance : Section S F → Result F
  current_minimum_distance s =
      if is_empty s then ok d.infinity else (back s.barriers >>= λ b. ok b.minimum_distance)

module _ {S F : Type 0} where
  -- `_barriers.back().update_with(index)`
  unfoldable pub update_back : Section S F → TraceSampleIndex → Result (Section S F)
  update_back s index = do
    b ← back s.barriers
    b' ← update_with b index
    ok (record s { barriers = set_back s.barriers b' })

module _ {S F : Type 0} ⦃d : Doubles F⦄ where
  -- The branches of `check_and_update`, for the distances that they compare.
  unfoldable pub keep_minimum : Section S F → F → F → TraceSampleIndex → Result (Section S F)
  unfolding is_empty
  keep_minimum s current_distance minimum index =
      if is_empty s || d.lt current_distance minimum
      then ok (add_barrier s current_distance (TraceSampleRange.construct index))
      else if d.le minimum current_distance
      then update_back s index
      else ok s

module _ {S F : Type 0} ⦃d : Doubles F⦄ ⦃k : SectionKind S F⦄ where
  unfoldable pub check_and_update : Section S F → S → TraceSampleIndex → Result (Bool × Section S F)
  check_and_update s robot_sample index = do
    reached ← reaches_collision s
    if reached then ok (false, s) else do
      let current_distance = k.minimum_human_robot_distance s.human_sample robot_sample
      minimum ← current_minimum_distance s
      s' ← keep_minimum s current_distance minimum index
      ok (d.lt d.zero current_distance, s')

  unfoldable pub are_colliding : Section S F → S → S → Bool
  are_colliding s human_sample robot_sample =
      d.eq (k.minimum_human_robot_distance human_sample robot_sample) d.zero
