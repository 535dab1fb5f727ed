-- ===== src/TraceSampleRange.antt =====
-- include/trace_sample_range.hpp and src/trace_sample_range.cpp: for each trace index from the
-- initial one on, the upper bound of the sample indexes. Each method returns the new range, or the
-- exception that it ends in.
pub mod Reindex
mod Tests
use opera.Prelude.{
  ℕ, zero, suc, ◌+◌, ◌-◌, List, [], ◌∷◌, ◌++◌, Bool, not, ltb, leb, if◌then◌else◌, Result, ok, err,
  undefined, out_of_fuel, require, ◌>>=◌, ◌>>◌, length, is_nil, at, back, drop_last, set_back,
}

pub record TraceSampleIndex : Type 0 where
  pub trace : ℕ
  pub sample : ℕ

pub record TraceSampleRange : Type 0 where
  pub initial : TraceSampleIndex
  pub upper_bounds : List ℕ

unfoldable pub construct : TraceSampleIndex → TraceSampleRange
construct initial = record { initial = initial; upper_bounds = initial.sample ∷ [] }

unfoldable pub add : TraceSampleRange → ℕ → TraceSampleRange
add r sample_idx = record r { upper_bounds = r.upper_bounds ++ sample_idx ∷ [] }

unfoldable pub increase_trace_index : TraceSampleRange → TraceSampleRange
increase_trace_index r = record r { upper_bounds = r.upper_bounds ++ 0 ∷ [] }

unfoldable pub is_empty : TraceSampleRange → Bool
is_empty r = is_nil r.upper_bounds

unfoldable pub update : TraceSampleRange → ℕ → Result TraceSampleRange
update r sample_idx = do
  last ← back r.upper_bounds
  require (ltb last sample_idx)
  ok (record r { upper_bounds = set_back r.upper_bounds sample_idx })

unfoldable pub maximum_trace_index : TraceSampleRange → Result ℕ
unfolding is_empty
maximum_trace_index r = do
  require (not (is_empty r))
  ok (r.initial.trace + length r.upper_bounds - 1)

unfoldable pub maximum_sample_index : TraceSampleRange → Result ℕ
unfolding is_empty
maximum_sample_index r = do require (not (is_empty r)); back r.upper_bounds

-- `and` calls `maximum_trace_index` only past the first test.
unfoldable pub upper_bound : TraceSampleRange → ℕ → Result ℕ
unfolding maximum_trace_index
upper_bound r idx = do
  require (leb r.initial.trace idx)
  last ← maximum_trace_index r
  require (leb idx last)
  at r.upper_bounds (idx - r.initial.trace)

-- The loop of `scale_down_trace_of`.
unfoldable pub pop_front_times : ℕ → List ℕ → Result (List ℕ)
pop_front_times zero xs = ok xs
pop_front_times (suc n) [] = err undefined
pop_front_times (suc n) (x ∷ xs) = pop_front_times n xs

abbrev pub origin : TraceSampleIndex
origin = record { trace = 0; sample = 0 }

unfoldable pub scale_down_trace_of : TraceSampleRange → ℕ → Result TraceSampleRange
unfolding maximum_trace_index
scale_down_trace_of r amount = do
  last ← maximum_trace_index r
  if ltb last amount
      then ok (record { initial = origin; upper_bounds = [] })
      else if ltb r.initial.trace amount
      then (pop_front_times (amount - r.initial.trace) r.upper_bounds >>= λ rest.
          ok (record { initial = origin; upper_bounds = rest }))
      else ok (record r { initial = record r.initial { trace = r.initial.trace - amount } })

-- The loop of `trim_down_trace_to`, with the rounds left.
unfoldable pub trim_loop : ℕ → TraceSampleRange → ℕ → Result TraceSampleRange
unfolding maximum_trace_index
trim_loop zero r index_bound = err out_of_fuel
trim_loop (suc fuel) r index_bound =
    let rest = trim_loop fuel (record r { upper_bounds = drop_last r.upper_bounds }) index_bound in
    if is_empty r
    then ok r
    else do last ← maximum_trace_index r; if ltb index_bound last then rest else ok r

unfoldable pub trim_down_trace_to : TraceSampleRange → ℕ → Result TraceSampleRange
trim_down_trace_to r index_bound = trim_loop (suc (length r.upper_bounds)) r index_bound

unfoldable pub size : TraceSampleRange → ℕ
size r = length r.upper_bounds
