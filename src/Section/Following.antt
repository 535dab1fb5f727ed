-- ===== src/Section/Following.antt =====
-- `check_and_update` of src/barrier.cpp where the robot samples come in the order of their indexes.
use opera.Prelude.{
  ℕ, ◌+◌, ◌-◌, ◌/◌, ◌^◌, ◌≤◌, ◌<◌, ◌≡◌, refl, ◌⊎◌, inl, inr, List, [], ◌∷◌, ◌++◌, Bool, false, ◌||◌,
  Bool-cases, Result, ok, arith, length, back, set_back, is_nil, replicate, length-append, back-ok,
  lt→ltb, ltb-false, length-set_back,
}
use opera.Prelude.Doubles.{Doubles, IsOrdered}
use opera.TraceSampleRange.{TraceSampleRange, TraceSampleIndex, maximum_trace_index, update}
use opera.TraceSampleRange
use opera.TraceSampleRange.Reindex.{maximum_trace_index-ok}
use opera.Barrier.{MinimumDistanceBarrier, update_with}
use opera.Barrier.Gap.{update_with_gap}
use opera.Section.{
  Section, SectionKind, is_empty, add_barrier, update_back, keep_minimum, reaches_collision,
  check_and_update,
}
use opera.Section.Minimum.{minimum, current_minimum_distance-minimum, reaches_collision-last}
use opera.Section.Ranges.{past_of, RangesFrom, RangesFrom-back, RangesFrom-set_back}

module _ {F : Type 0} where
  -- The index lies past the barrier's range: on a later trace index, or on its last one with a
  -- greater sample index.
  abbrev pub Follows : TraceSampleIndex → MinimumDistanceBarrier F → Type 0
  Follows index l =
      (past_of l ≤ index.trace)
      ⊎ ((past_of l ≡ index.trace + 1)
          × (m : ℕ) × (back l.range.upper_bounds ≡ ok m)
          × (m < index.sample))

  -- The barrier keeps its initial index and its distance, and its range is no shorter.
  abbrev Extends : MinimumDistanceBarrier F → MinimumDistanceBarrier F → Type 0
  Extends l l' =
      (l'.minimum_distance ≡ l.minimum_distance)
      × (l'.range.initial ≡ l.range.initial)
      × (length l.range.upper_bounds ≤ length l'.range.upper_bounds)

  update_with-Extends :
      (l : MinimumDistanceBarrier F) (index : TraceSampleIndex)
      → 0 < length l.range.upper_bounds
      → index.trace < 2 ^ 64
      → Follows index l
      → (l' : MinimumDistanceBarrier F) × (update_with l index ≡ ok l') × Extends l l'
  unfolding update_with update
  update_with-Extends l index pos w (inl later) = (
    _,
    update_with_gap l index (past_of l - 1) (maximum_trace_index-ok l.range pos) (omega arith) w,
    (
      refl,
      refl,
      omega (
        arith,
        length-append l.range.upper_bounds
            (replicate ((index.trace - (past_of l - 1) + 1) / 2) (let z : ℕ = 0 in z)),
      ),
    ),
  )
  update_with-Extends l index pos w (inr (same, m, e, more)) = (
    record l {
      range = record l.range { upper_bounds = set_back l.range.upper_bounds index.sample };
    },
    rw (
      maximum_trace_index-ok l.range pos,
      ltb-false (past_of l - 1) index.trace (omega arith),
      e,
      lt→ltb m index.sample more,
    ),
    (refl, refl, omega (arith, length-set_back l.range.upper_bounds index.sample)),
  )

  RangesFrom-append :
      (low : ℕ) (bs : List (MinimumDistanceBarrier F)) (b : MinimumDistanceBarrier F)
      → RangesFrom low bs
      → 0 < length b.range.upper_bounds
      → low ≤ b.range.initial.trace + 1
      → ((l : MinimumDistanceBarrier F) → back bs ≡ ok l → past_of l ≤ b.range.initial.trace + 1)
      → RangesFrom low (bs ++ b ∷ [])
  RangesFrom-append low [] b r pos h f = (pos, h, tt)
  RangesFrom-append low (x ∷ []) b r pos h f = (r.0, r.1, (pos, f x refl, tt))
  RangesFrom-append low (x ∷ y ∷ bs) b r pos h f =
      let (l, e) = back-ok (y ∷ bs) (omega arith) in
      let (_, above, _) = RangesFrom-back (past_of x) (y ∷ bs) l r.2 e in
      (r.0, r.1, RangesFrom-append (past_of x) (y ∷ bs) b r.2 pos (omega (arith, f l e)) f)

module _ {S F : Type 0} ⦃d : Doubles F⦄ (o : IsOrdered d) (s : Section S F)
    (index : TraceSampleIndex) (ranges : RangesFrom 0 s.barriers) (w : index.trace < 2 ^ 64)
    (follows : (l : MinimumDistanceBarrier F) → back s.barriers ≡ ok l → Follows index l) where
  KeepsRanges : Result (Section S F) → Type 0
  KeepsRanges r = (s' : Section S F) × (r ≡ ok s') × RangesFrom 0 s'.barriers

  -- A following index ends no range before it.
  follows-past :
      (l : MinimumDistanceBarrier F) → back s.barriers ≡ ok l → past_of l ≤ index.trace + 1
  follows-past l e = elim (follows l e) [
    | inl later ↦ omega arith
    | inr (same, m, f, more) ↦ omega arith
  ]

  update_back-keeps :
      (l : MinimumDistanceBarrier F) → back s.barriers ≡ ok l → KeepsRanges (update_back s index)
  unfolding update_back KeepsRanges
  update_back-keeps l e =
      let (pos, _, _) = RangesFrom-back 0 s.barriers l ranges e in
      let (l', f, x) = update_with-Extends l index pos w (follows l e) in
      (
        record s { barriers = set_back s.barriers l' },
        rw (e, f),
        RangesFrom-set_back 0 s.barriers l l' ranges e x.1 (omega (arith, x.2)),
      )

  keep_minimum-keeps :
      (distance : F) → KeepsRanges (keep_minimum s distance (minimum s.barriers) index)
  unfolding keep_minimum KeepsRanges add_barrier TraceSampleRange.construct
  keep_minimum-keeps distance =
      elim (Bool-cases (is_nil s.barriers || d.lt distance (minimum s.barriers))) [
        | inl new ↦
            let b : MinimumDistanceBarrier F = record {
              minimum_distance = distance;
              range = TraceSampleRange.construct index;
            } in
            (
              record s { barriers = s.barriers ++ b ∷ [] },
              rw new,
              RangesFrom-append 0 s.barriers b ranges (omega arith) (omega arith) follows-past,
            )
        | inr old ↦ elim (Bool-cases (d.le (minimum s.barriers) distance)) [
          | inl above ↦
              let (l, e) = back-ok s.barriers (ground arith) in
              rw (old, above) (update_back-keeps l e)
          | inr neither ↦ (s, rw (old, neither), ranges)
        ]
      ]

  pub reaches_collision-returns : (b : Bool) × (reaches_collision s ≡ ok b)
  unfolding reaches_collision is_empty
  reaches_collision-returns = elim (Bool-cases (is_nil s.barriers)) [
    | inl e ↦ (false, rw e)
    | inr e ↦
        let (l, f) = back-ok s.barriers (ground arith) in
        (d.eq l.minimum_distance d.zero, reaches_collision-last s l f)
  ]

-- On a section whose ranges are in order and not empty, `check_and_update` returns for every robot
-- sample with an index past the last barrier's range, and keeps the ranges in order and not empty.
pub check_and_update-returns :
    {S F : Type 0} ⦃d : Doubles F⦄ ⦃k : SectionKind S F⦄ (o : IsOrdered d) (s : Section S F)
    (robot_sample : S) (index : TraceSampleIndex)
    → RangesFrom 0 s.barriers
    → index.trace < 2 ^ 64
    → ((l : MinimumDistanceBarrier F) → back s.barriers ≡ ok l → Follows index l)
    → (clear : Bool) × (s' : Section S F) × (check_and_update s robot_sample index ≡ ok (clear, s'))
      × RangesFrom 0 s'.barriers
unfolding check_and_update KeepsRanges
check_and_update-returns ⦃d⦄ ⦃k⦄ o s robot_sample index ranges w follows =
    let D : _ = k.minimum_human_robot_distance s.human_sample robot_sample in
    let (reached, r) = reaches_collision-returns o s index ranges w follows in
    elim (Bool-cases reached) [
      | inl e ↦ (false, s, rw (r, e), ranges)
      | inr e ↦
          let (s', f, ranges') = keep_minimum-keeps o s index ranges w follows D in
          (d.lt d.zero D, s', rw (r, e, current_minimum_distance-minimum s, f), ranges')
    ]
