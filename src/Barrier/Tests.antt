-- ===== src/Barrier/Tests.antt =====
-- Runs of `update_with`, and the theorems at an input.
use opera.Prelude.{ℕ, ◌<◌, ◌≡◌, refl, [], ◌∷◌, ok, arith}
use opera.TraceSampleRange.{maximum_trace_index}
use opera.Barrier.{MinimumDistanceBarrier, update_with}
use opera.Barrier.Gap.{update_with_falls_short}

-- The range ends at trace index 0; the next samples that are seen lie at trace index 4.
abbrev barrier : MinimumDistanceBarrier ℕ
barrier = record {
  minimum_distance = 5;
  range = record { initial = record { trace = 0; sample = 2 }; upper_bounds = 6 ∷ [] };
}

maximum_run : maximum_trace_index barrier.range ≡ ok 0
unfolding maximum_trace_index
maximum_run = refl

update_with_falls_short_example :
    (b' : MinimumDistanceBarrier ℕ) × (m' : ℕ) × (update_with barrier
        (record { trace = 4; sample = 3 })
      ≡ ok b')
    × (maximum_trace_index b'.range ≡ ok m')
    × (m' < 4)
update_with_falls_short_example =
    update_with_falls_short barrier (record { trace = 4; sample = 3 }) 0 maximum_run (omega arith)
      (omega arith)
