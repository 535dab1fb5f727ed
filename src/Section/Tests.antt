-- ===== src/Section/Tests.antt =====
-- Runs of the section's operations, and the theorems at an input: positions on a line in whole
-- millimetres, with their distance.
use opera.Prelude.{
  ℕ, back, inr, ◌+◌, ◌-◌, ◌≤◌, ◌≡◌, refl, [], ◌∷◌, Option, Bool, true, false, not, ok, arith, All,
}
use opera.Prelude.Millimetres.{Millimetres, mm, millimetres, millimetres-IsOrdered}
use opera.TraceSampleRange
use opera.TraceSampleRange.{TraceSampleIndex, TraceSampleRange}
use opera.Barrier.{MinimumDistanceBarrier, is_collision, update_with}
use opera.Section.{
  Section, SectionKind, is_empty, last_barrier, keep_minimum, update_back, add_barrier,
  check_and_update, current_minimum_distance, reaches_collision,
}
use opera.Section.Reset.{reuse_element, reset}
use opera.Section.Search.{Splits, IsDescending, reuse_element-Splits}
use opera.Section.Minimum.{least, check_and_update-minimum}
use opera.Section.Ranges.{past_of, RangesFrom}
use opera.Section.Following.{Follows, check_and_update-returns}
use opera.Section.Trimming.{IsInOrder}
use opera.Section.Resetting.{reset-IsInOrder}

abbrev gap : ℕ → ℕ → Millimetres
gap a b = mm ((a - b) + (b - a))

instance abbrev on_a_line : SectionKind ℕ Millimetres
on_a_line = record { maximum_human_human_distance = gap; minimum_human_robot_distance = gap }

abbrev range : ℕ → ℕ → TraceSampleRange
range trace sample = record {
  initial = record { trace = trace; sample = 0 };
  upper_bounds = sample ∷ [];
}

abbrev section : Section ℕ Millimetres
section = record {
  human_sample = 10;
  barriers =
      record { minimum_distance = mm 9; range = range 0 3 }
      ∷ record { minimum_distance = mm 5; range = range 1 2 }
      ∷ record { minimum_distance = mm 2; range = range 2 6 }
      ∷ [];
}

section-IsDescending : IsDescending section.barriers
section-IsDescending = ((refl, (refl, tt)), ((refl, tt), (tt, tt)))

program : Unit {0}
unfolding TraceSampleRange.construct check_and_update keep_minimum update_back add_barrier
    current_minimum_distance reaches_collision is_empty last_barrier is_collision update_with
    TraceSampleRange.maximum_trace_index TraceSampleRange.update
program = tt

reuse_element-Splits_example :
    (r : Option ℕ) × (reuse_element section 13 ≡ ok r) × Splits (mm 3) section.barriers r
reuse_element-Splits_example =
    reuse_element-Splits millimetres-IsOrdered section 13 section-IsDescending

reset-IsInOrder_example :
    (s' : Section ℕ Millimetres) × (reset section 13 1 2 0 ≡ ok s')
    × (s'.human_sample ≡ 10)
    × IsInOrder s'.barriers
    × All
        (λ b. (millimetres.lt (mm 3) b.minimum_distance ≡ true) × (past_of b + 1 ≤ 2 + 1))
        s'.barriers
reset-IsInOrder_example =
    reset-IsInOrder millimetres-IsOrdered section 13 1 2 0
      (record { descending = section-IsDescending; ranges = omega arith })

-- A robot sample at position 13, three millimetres away, at the next sample index.
abbrev next_index : TraceSampleIndex
next_index = record { trace = 2; sample = 7 }

section_after : Section ℕ Millimetres
section_after = record section {
  barriers =
      record { minimum_distance = mm 9; range = range 0 3 }
      ∷ record { minimum_distance = mm 5; range = range 1 2 }
      ∷ record { minimum_distance = mm 2; range = range 2 7 }
      ∷ [];
}

current_run : current_minimum_distance section ≡ ok (mm 2)
unfolding program
current_run = refl

clear_run : reaches_collision section ≡ ok false
unfolding program
clear_run = refl

check_run : check_and_update section 13 next_index ≡ ok (true, section_after)
unfolding program section_after
check_run = refl

check_and_update-minimum_example :
    IsDescending section_after.barriers
    × (current_minimum_distance section_after ≡ ok (least (mm 2) (mm 3)))
    × (true ≡ millimetres.lt (mm 0) (mm 3))
    × (reaches_collision section_after ≡ ok (not true))
check_and_update-minimum_example =
    check_and_update-minimum millimetres-IsOrdered section 13 next_index true section_after (mm 2)
      section-IsDescending current_run refl refl clear_run check_run

follows :
    (l : MinimumDistanceBarrier Millimetres) → back section.barriers ≡ ok l → Follows next_index l
follows l e =
    let p : record { minimum_distance = mm 2; range = range 2 6 } ≡ l = cc in
    rw (← p) (inr (omega arith, 6, refl, omega arith))

check_and_update-returns_example :
    (clear : Bool) × (s' : Section ℕ Millimetres) × (check_and_update section 13 next_index
      ≡ ok (clear, s'))
    × RangesFrom 0 s'.barriers
check_and_update-returns_example =
    check_and_update-returns millimetres-IsOrdered section 13 next_index (omega arith) (omega arith)
      follows
