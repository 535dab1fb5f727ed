-- ===== src/TraceSampleRange/Tests.antt =====
-- Runs of the range operations, and the theorems at an input.
use opera.Prelude.{ℕ, ◌+◌, ◌≡◌, refl, [], ◌∷◌, ok, err, arith, precondition}
use opera.TraceSampleRange.{
  TraceSampleRange, maximum_trace_index, upper_bound, scale_down_trace_of, update, pop_front_times,
  origin,
}
use opera.TraceSampleRange.Reindex.{scale_down_shifts}

-- Trace indexes 2 to 5.
abbrev sample_range : TraceSampleRange
sample_range = record {
  initial = record { trace = 2; sample = 7 };
  upper_bounds = 9 ∷ 4 ∷ 0 ∷ 3 ∷ [];
}

upper_bound_run : upper_bound sample_range 3 ≡ ok 4
unfolding upper_bound
upper_bound_run = refl

update_refused : update sample_range 3 ≡ err precondition
unfolding update
update_refused = refl

scale_down_run :
    scale_down_trace_of sample_range 3
    ≡ ok (record { initial = origin; upper_bounds = 4 ∷ 0 ∷ 3 ∷ [] })
unfolding scale_down_trace_of pop_front_times
scale_down_run = refl

maximum_run : maximum_trace_index sample_range ≡ ok 5
unfolding maximum_trace_index
maximum_run = refl

scale_down_shifts_example :
    (r' : TraceSampleRange) × (scale_down_trace_of sample_range 3 ≡ ok r')
    × ((i : ℕ) → upper_bound r' i ≡ upper_bound sample_range (i + 3))
    × (maximum_trace_index r' ≡ ok 2)
scale_down_shifts_example = scale_down_shifts sample_range 3 5 maximum_run (omega arith)
