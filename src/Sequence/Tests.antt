-- ===== src/Sequence/Tests.antt =====
-- The theorems on sequences at an input: positions on a line in whole millimetres.
use opera.Prelude.{
  ℕ, ◌+◌, ◌-◌, ◌≤◌, ◌≡◌, refl, inr, [], ◌∷◌, Bool, true, not, ◌==◌, ok, arith, length, back, All,
}
use opera.Prelude.Millimetres.{Millimetres, mm, millimetres, millimetres-IsOrdered}
use opera.TraceSampleRange.{TraceSampleIndex, TraceSampleRange}
use opera.Barrier
use opera.Section
use opera.Section.{Section, SectionKind}
use opera.Section.Stepping.{IsKept}
use opera.Sequence.{Samples, Sequence, add_when_necessary, check_and_update, reset}
use opera.Sequence.Adding.{IsFilled, FollowsLast, IsAdvanced}
use opera.Sequence.Policies.{check_and_update-IsAdvanced}
use opera.Sequence.Necessary.{first_section, check_and_update-adds}
use opera.Sequence.Resuming.{HasOrder, Serves, reset-Serves}

abbrev gap : ℕ → ℕ → Millimetres
gap a b = mm ((a - b) + (b - a))

instance abbrev on_a_line : SectionKind ℕ Millimetres
on_a_line = record { maximum_human_human_distance = gap; minimum_human_robot_distance = gap }

instance abbrev positions : Samples ℕ
positions = record { differ = λ a b. not (a == b) }

abbrev range : ℕ → ℕ → TraceSampleRange
range trace sample = record {
  initial = record { trace = trace; sample = 0 };
  upper_bounds = sample ∷ [];
}

abbrev section : ℕ → Section ℕ Millimetres
section human_sample = record {
  human_sample = human_sample;
  barriers =
      record { minimum_distance = mm 9; range = range 0 3 }
      ∷ record { minimum_distance = mm 5; range = range 1 2 }
      ∷ [];
}

abbrev sequence : Sequence ℕ Millimetres
sequence = record { update_policy = add_when_necessary; sections = section 10 ∷ section 12 ∷ [] }

-- A robot sample at position 12, at the next sample index.
abbrev next_index : TraceSampleIndex
next_index = record { trace = 1; sample = 7 }

gap-positive : (a b : ℕ) → millimetres.le (mm 0) (gap a b) ≡ true
gap-positive a b = ground arith

section-IsKept : (human_sample : ℕ) → IsKept (section human_sample)
section-IsKept human_sample = record { distances = (refl, (refl, tt)); ranges = omega arith }

sections-IsFilled : All IsFilled sequence.sections
sections-IsFilled = ((section-IsKept 10, omega arith), ((section-IsKept 12, omega arith), tt))

section-IsInOrder : (human_sample : ℕ) → HasOrder (section human_sample)
section-IsInOrder human_sample = record {
  descending = ((refl, tt), (tt, tt));
  ranges = omega arith;
}

follows_last : FollowsLast sequence next_index
follows_last s l e f =
    let p : section 12 ≡ s = cc in
    let f' : back (section 12).barriers ≡ ok l = rw (← p) at f in
    let q : record { minimum_distance = mm 5; range = range 1 2 } ≡ l = cc in
    rw (← q) (inr (refl, 2, refl, omega arith))

check_and_update-IsAdvanced_example :
    (clear : Bool) × (q' : Sequence ℕ Millimetres) × (check_and_update sequence 14 12 next_index
      ≡ ok (clear, q'))
    × IsAdvanced sequence q'
check_and_update-IsAdvanced_example =
    check_and_update-IsAdvanced millimetres-IsOrdered sequence 14 12 next_index gap-positive refl
      (omega arith) sections-IsFilled follows_last

-- The robot sample meets the last section's human sample, at 12, and not the new one, at 14.
check_and_update-adds_example :
    check_and_update sequence 14 12 next_index
    ≡ ok (
      true,
      record sequence { sections = section 10 ∷ section 12 ∷ first_section 14 12 next_index ∷ [] },
    )
unfolding Section.reaches_collision Section.is_empty Section.last_barrier Barrier.is_collision
check_and_update-adds_example =
    check_and_update-adds millimetres-IsOrdered sequence (section 12) 14 12 next_index gap-positive
      (omega arith) sections-IsFilled follows_last refl refl refl refl refl

reset-Serves_example :
    (q' : Sequence ℕ Millimetres) × (reset sequence 13 1 2 0 ≡ ok q')
    × All (Serves 13 1 2) q'.sections
    × (length q'.sections ≤ 2)
    × (q'.update_policy ≡ add_when_necessary)
reset-Serves_example =
    reset-Serves millimetres-IsOrdered sequence 13 1 2 0
      (section-IsInOrder 10, (section-IsInOrder 12, tt))
