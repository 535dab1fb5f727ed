-- ===== src/Section/Trimming.antt =====
-- The trimming loop of `reset` keeps a section in order.
use opera.Prelude.{
  ℕ, zero, suc, ◌+◌, ◌-◌, ◌≤◌, ◌<◌, ◌≡◌, refl, ◌∙◌, inl, inr, List, [], ◌∷◌, true, ltb, leb,
  Bool-cases, Result, ok, ◌>>=◌, arith, length, at, back, drop_last, set_back, take, All, All-take,
  All-map, All-drop_last, All-set_back, length-take, length-drop_last, back-ok, at-pred_length,
  ltb→lt, ltb-false→le, leb→le, min,
}
use opera.Prelude.Doubles.{Doubles, IsOrdered}
use opera.TraceSampleRange.{maximum_trace_index}
use opera.TraceSampleRange.Reindex.{maximum_trace_index-ok, trim_down-take}
use opera.Barrier.{MinimumDistanceBarrier, trim_down_range_to}
use opera.Section.Search.{IsDescending}
use opera.Section.Descending.{IsDescending-set_back}
use opera.Section.Ranges.{
  past_of, RangesFrom, RangesFrom-drop_last, RangesFrom-back, RangesFrom-before,
  RangesFrom-set_back,
}
use opera.Section.Reset.{trim_ranges_loop}

module _ {F : Type 0} ⦃d : Doubles F⦄ where
  -- The barriers of a section: distances in descending order, ranges in order and not empty.
  pub record IsInOrder (bs : List (MinimumDistanceBarrier F)) : Type 0 where
    pub descending : IsDescending bs
    pub ranges : RangesFrom 0 bs

  IsDescending-drop_last :
      (bs : List (MinimumDistanceBarrier F)) → IsDescending bs → IsDescending (drop_last bs)
  IsDescending-drop_last [] h = tt
  IsDescending-drop_last (b ∷ []) h = tt
  IsDescending-drop_last (b ∷ c ∷ bs) h = (
    All-drop_last (λ x. d.le x.minimum_distance b.minimum_distance ≡ true) (c ∷ bs) h.0,
    IsDescending-drop_last (c ∷ bs) h.1,
  )

  pub IsDescending-take :
      (n : ℕ) (bs : List (MinimumDistanceBarrier F)) → IsDescending bs → IsDescending (take n bs)
  IsDescending-take zero bs h = tt
  IsDescending-take (suc n) [] h = tt
  IsDescending-take (suc n) (b ∷ bs) h = (
    All-take (λ x. d.le x.minimum_distance b.minimum_distance ≡ true) n bs h.0,
    IsDescending-take n bs h.1,
  )

trim_down_range_to-take :
    {F : Type 0} (b : MinimumDistanceBarrier F) (bound : ℕ)
    → trim_down_range_to b bound
      ≡ ok (record b {
        range = record b.range {
          upper_bounds = take (suc bound - b.range.initial.trace) b.range.upper_bounds;
        };
      })
unfolding trim_down_range_to
trim_down_range_to-take b bound = rw (trim_down-take b.range bound)

module _ {F : Type 0} ⦃d : Doubles F⦄ (o : IsOrdered d) (bound : ℕ) where
  abbrev pub Trims : Result (List (MinimumDistanceBarrier F)) → Type 0
  Trims r =
      (bs' : List (MinimumDistanceBarrier F)) × (r ≡ ok bs')
      × IsInOrder bs'
      × All (λ b. past_of b ≤ bound + 1) bs'

  trim_last :
      (bs : List (MinimumDistanceBarrier F)) (l : MinimumDistanceBarrier F)
      → IsInOrder bs
      → back bs ≡ ok l
      → bound < past_of l - 1
      → l.range.initial.trace ≤ bound
      → Trims (trim_down_range_to l bound >>= λ b'. ok (set_back bs b'))
  trim_last bs l h e k i =
      let l' : MinimumDistanceBarrier F = record l {
        range = record l.range {
          upper_bounds = take (suc bound - l.range.initial.trace) l.range.upper_bounds;
        };
      } in
      let n : length l'.range.upper_bounds
          ≡ min (suc bound - l.range.initial.trace) (length l.range.upper_bounds) =
        length-take _ l.range.upper_bounds in
      let (pos, _, _) = RangesFrom-back 0 bs l h.ranges e in
      (
        set_back bs l',
        rw (trim_down_range_to-take l bound),
        record {
          descending = IsDescending-set_back o bs l l' h.descending e refl;
          ranges = RangesFrom-set_back 0 bs l l' h.ranges e refl (omega arith);
        },
        All-set_back (λ b. past_of b ≤ bound + 1) bs l'
            (All-map (λ b. past_of b ≤ l.range.initial.trace + 1) (λ b. past_of b ≤ bound + 1)
              (λ b x. omega arith) (drop_last bs) (RangesFrom-before 0 bs l h.ranges e).1)
            (omega arith),
      )

  pub trim_ranges_loop-Trims :
      (fuel : ℕ) (bs : List (MinimumDistanceBarrier F))
      → length bs < fuel
      → IsInOrder bs
      → Trims (trim_ranges_loop fuel bs bound)
  unfolding trim_ranges_loop
  trim_ranges_loop-Trims zero bs f h = absurd (omega arith)
  trim_ranges_loop-Trims (suc fuel) [] f h = ([], refl, h, tt)
  trim_ranges_loop-Trims (suc fuel) (b ∷ bs) f h =
      let (l, e) = back-ok (b ∷ bs) (omega arith) in
      let (pos, _, all) = RangesFrom-back 0 (b ∷ bs) l h.ranges e in
      let last : at (b ∷ bs) (length (b ∷ bs) - 1) ≡ ok l =
        at-pred_length (b ∷ bs) (omega arith) ∙ e in
      let top : maximum_trace_index l.range ≡ ok (past_of l - 1) =
        maximum_trace_index-ok l.range pos in
      elim (Bool-cases (ltb bound (past_of l - 1))) [
        | inl above ↦ elim (Bool-cases (leb l.range.initial.trace bound)) [
          | inl inside ↦
              rw (last, top, above, inside)
                (trim_last (b ∷ bs) l h e (ltb→lt bound _ above) (leb→le _ bound inside))
          | inr outside ↦
              rw (last, top, above, outside)
                (trim_ranges_loop-Trims fuel (drop_last (b ∷ bs))
                  (omega (arith, length-drop_last (b ∷ bs)))
                  (record {
                    descending = IsDescending-drop_last (b ∷ bs) h.descending;
                    ranges = RangesFrom-drop_last 0 (b ∷ bs) h.ranges;
                  }))
        ]
        | inr within ↦
            rw (last, top, within)
              (
                b ∷ bs,
                refl,
                h,
                All-map (λ c. past_of c ≤ past_of l) (λ c. past_of c ≤ bound + 1)
                    (λ c x. omega (arith, ltb-false→le bound (past_of l - 1) within)) (b ∷ bs) all,
              )
      ]
