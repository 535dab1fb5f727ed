-- ===== src/Section/Resetting.antt =====
-- `reset` of src/barrier.cpp on a section whose distances and ranges are in order.
use opera.Prelude.{
  ℕ, suc, ◌+◌, ◌-◌, ◌≤◌, ◌<◌, ◌≡◌, refl, inl, inr, List, [], ◌∷◌, Option, none, some, Bool, true,
  false, ◌&&◌, ◌||◌, map, ltb, ◌==◌, Bool-cases, Result, ok, arith, length, take, All, All-take,
  All-take-at, All-map, back-ok, ltb-false→le,
}
use opera.Prelude.Doubles.{Doubles, IsOrdered}
use opera.TraceSampleRange.{TraceSampleRange, maximum_sample_index}
use opera.TraceSampleRange.Reindex.{
  past, maximum_trace_index-ok, scaled, scale_down_trace_of-ok, past-scaled, length-scaled,
}
use opera.Barrier.{MinimumDistanceBarrier, scale_down_range_of}
use opera.Section.{Section, SectionKind}
use opera.Section.Search.{IsDescending, Splits, reuse_element-Splits}
use opera.Section.Ranges.{
  past_of, RangesFrom, RangesFrom-take, RangesFrom-weaken, keep_up_to_loop-take,
}
use opera.Section.Reset.{
  trim_down_trace_index_ranges_to, is_outdated, drop_outdated, scale_all,
  scale_down_trace_index_ranges_of, reuse_up_to, reset,
}
use opera.Section.Trimming.{IsInOrder, IsDescending-take, trim_ranges_loop-Trims}

initial-scaled :
    (r : TraceSampleRange) (amount : ℕ) → (scaled r amount).initial.trace ≡ r.initial.trace - amount
unfolding scaled
initial-scaled r amount = ground arith

module _ {F : Type 0} where
  is_outdated-ok :
      (b : MinimumDistanceBarrier F) (lower sample_index : ℕ)
      → 0 < length b.range.upper_bounds
      → (v : Bool) × (is_outdated b lower sample_index ≡ ok v) × (v ≡ false → lower < past_of b)
  unfolding is_outdated maximum_sample_index
  is_outdated-ok b lower sample_index h =
      let (m, e) = back-ok b.range.upper_bounds h in
      (
        ltb (past_of b - 1) lower || ((past_of b - 1 == lower) && ltb m sample_index),
        ground (arith, maximum_trace_index-ok b.range h),
        λ f. ground arith,
      )

  -- The barrier with its range scaled down.
  abbrev pub shift : ℕ → MinimumDistanceBarrier F → MinimumDistanceBarrier F
  shift amount b = record b { range = scaled b.range amount }

  scale_all-map :
      (amount low : ℕ) (bs : List (MinimumDistanceBarrier F))
      → RangesFrom low bs
      → All (λ b. amount < past_of b) bs
      → scale_all bs amount ≡ ok (map (shift amount) bs)
  unfolding scale_all scale_down_range_of
  scale_all-map amount low [] r h = refl
  scale_all-map amount low (b ∷ bs) r h = rw (
    scale_down_trace_of-ok b.range amount (maximum_trace_index-ok b.range r.0) (omega arith),
    scale_all-map amount (past_of b) bs r.2 h.1,
  )

  RangesFrom-shift :
      (amount low low' : ℕ) (bs : List (MinimumDistanceBarrier F))
      → low' ≤ low - amount
      → RangesFrom low bs
      → All (λ b. amount < past_of b) bs
      → RangesFrom low' (map (shift amount) bs)
  RangesFrom-shift amount low low' [] k r h = tt
  RangesFrom-shift amount low low' (b ∷ bs) k r h = (
    length-scaled b.range amount r.0 h.0,
    omega (arith, initial-scaled b.range amount),
    RangesFrom-shift amount (past_of b) (past (scaled b.range amount)) bs
        (omega (arith, past-scaled b.range amount h.0)) r.2 h.1,
  )

  All-shift :
      (amount : ℕ) (P Q : MinimumDistanceBarrier F → Type 0)
      → ((b : MinimumDistanceBarrier F) → amount < past_of b → P b → Q (shift amount b))
      → (bs : List (MinimumDistanceBarrier F)) → All (λ b. amount < past_of b) bs
      → All P bs
      → All Q (map (shift amount) bs)
  All-shift amount P Q f [] h k = tt
  All-shift amount P Q f (b ∷ bs) h k = (f b h.0 k.0, All-shift amount P Q f bs h.1 k.1)

module _ {F : Type 0} ⦃d : Doubles F⦄ where
  IsDescending-shift :
      (amount : ℕ) (bs : List (MinimumDistanceBarrier F))
      → All (λ b. amount < past_of b) bs
      → IsDescending bs
      → IsDescending (map (shift amount) bs)
  IsDescending-shift amount [] h k = tt
  IsDescending-shift amount (b ∷ bs) h k = (
    All-shift amount (λ c. d.le c.minimum_distance b.minimum_distance ≡ true)
        (λ c. d.le c.minimum_distance b.minimum_distance ≡ true) (λ c l e. e) bs h.1 k.0,
    IsDescending-shift amount bs h.1 k.1,
  )

  module _ (P : MinimumDistanceBarrier F → Type 0) (lower : ℕ) where
    -- The barriers that are left where the outdated ones are dropped.
    abbrev Current : Result (List (MinimumDistanceBarrier F)) → Type 0
    Current r =
        (bs' : List (MinimumDistanceBarrier F)) × (r ≡ ok bs')
        × RangesFrom 0 bs'
        × IsDescending bs'
        × All P bs'
        × All (λ b. lower < past_of b) bs'

    past-All :
        (low : ℕ) (bs : List (MinimumDistanceBarrier F))
        → lower < low
        → RangesFrom low bs
        → All (λ b. lower < past_of b) bs
    past-All low [] h r = tt
    past-All low (b ∷ bs) h r = (omega arith, past-All (past_of b) bs (omega arith) r.2)

    drop_outdated-Current :
        (sample_index low : ℕ) (bs : List (MinimumDistanceBarrier F))
        → RangesFrom low bs
        → IsDescending bs
        → All P bs
        → Current (drop_outdated bs lower sample_index)
    unfolding drop_outdated
    drop_outdated-Current sample_index low [] r h p = ([], refl, tt, tt, tt, tt)
    drop_outdated-Current sample_index low (b ∷ bs) r h p =
        let (v, e, current) = is_outdated-ok b lower sample_index r.0 in
        elim (Bool-cases v) [
          | inl old ↦ rw (e, old) (drop_outdated-Current sample_index (past_of b) bs r.2 h.1 p.1)
          | inr new ↦
              rw (e, new)
                (
                  b ∷ bs,
                  refl,
                  RangesFrom-weaken low 0 (b ∷ bs) (omega arith) r,
                  h,
                  p,
                  (current new, past-All (past_of b) bs (current new) r.2),
                )
        ]

module _ {F : Type 0} ⦃d : Doubles F⦄ (m : F) (lower upper : ℕ) where
  -- What holds of the barriers that `reset` leaves.
  abbrev Reuses : Result (List (MinimumDistanceBarrier F)) → Type 0
  Reuses r =
      (bs' : List (MinimumDistanceBarrier F)) × (r ≡ ok bs')
      × IsInOrder bs'
      × All (λ b. (d.lt m b.minimum_distance ≡ true) × (past_of b + lower ≤ upper + 1)) bs'

  abbrev Fits : MinimumDistanceBarrier F → Type 0
  Fits b = (d.lt m b.minimum_distance ≡ true) × (past_of b ≤ upper + 1)

  scale_down-Reuses :
      (bs : List (MinimumDistanceBarrier F))
      → RangesFrom 0 bs
      → IsDescending bs
      → All Fits bs
      → All (λ b. lower < past_of b) bs
      → Reuses (scale_down_trace_index_ranges_of bs lower)
  unfolding scale_down_trace_index_ranges_of
  scale_down-Reuses bs r h f c = elim (Bool-cases (ltb 0 lower)) [
    | inl pos ↦ (
      map (shift lower) bs,
      rw pos (scale_all-map lower 0 bs r c),
      record {
        descending = IsDescending-shift lower bs c h;
        ranges = RangesFrom-shift lower 0 0 bs (omega arith) r c;
      },
      All-shift lower Fits
          (λ b. (d.lt m b.minimum_distance ≡ true) × (past_of b + lower ≤ upper + 1))
          (λ b k x. (x.0, omega (arith, past-scaled b.range lower k, x.1))) bs c f,
    )
    | inr none_ ↦ (
      bs,
      rw none_,
      record { descending = h; ranges = r },
      All-map Fits (λ b. (d.lt m b.minimum_distance ≡ true) × (past_of b + lower ≤ upper + 1))
          (λ b x. (x.0, omega (arith, x.1, ltb-false→le 0 lower none_))) bs f,
    )
  ]

  reuse_up_to-Reuses :
      (bs : List (MinimumDistanceBarrier F)) (r : Option ℕ) (sample_index : ℕ)
      → IsInOrder bs
      → All (λ b. past_of b ≤ upper + 1) bs
      → Splits m bs r
      → Reuses (reuse_up_to bs r lower sample_index)
  unfolding reuse_up_to
  reuse_up_to-Reuses bs none sample_index h p split =
      ([], refl, record { descending = tt; ranges = tt }, tt)
  reuse_up_to-Reuses bs (some k) sample_index h p (inside, above, below) =
      let kept : List (MinimumDistanceBarrier F) = take (suc k) bs in
      let fits : All Fits kept =
        All-× kept
          (All-take-at (λ b. d.lt m b.minimum_distance ≡ true) (suc k) bs
            (λ i b e n. above i b e (omega arith)))
          (All-take (λ b. past_of b ≤ upper + 1) (suc k) bs p) in
      let (bs', e, r', d', f', c') =
        drop_outdated-Current Fits lower sample_index 0 kept (RangesFrom-take (suc k) 0 bs h.ranges)
          (IsDescending-take (suc k) bs h.descending) fits in
      rw (keep_up_to_loop-take (suc (length bs)) k bs inside (omega arith), e)
        (scale_down-Reuses bs' r' d' f' c')
    where
      All-× :
          (xs : List (MinimumDistanceBarrier F))
          → All (λ b. d.lt m b.minimum_distance ≡ true) xs
          → All (λ b. past_of b ≤ upper + 1) xs
          → All Fits xs
      All-× [] x y = tt
      All-× (b ∷ xs) x y = ((x.0, y.0), All-× xs x.1 y.1)

-- On a section whose distances never grow and whose ranges are in order and not empty, `reset`
-- returns, whatever the new human sample, the interval of trace indexes and the sample index. What
-- it leaves is in order in the same way; each barrier left has a distance above the one from the
-- new human sample to the section's, and ends within the interval, counted from its lower bound.
pub reset-IsInOrder :
    {S F : Type 0} ⦃d : Doubles F⦄ ⦃k : SectionKind S F⦄ (o : IsOrdered d) (s : Section S F)
    (human_sample : S) (lower upper sample_index : ℕ)
    → IsInOrder s.barriers
    → (s' : Section S F) × (reset s human_sample lower upper sample_index ≡ ok s')
      × (s'.human_sample ≡ s.human_sample)
      × IsInOrder s'.barriers
      × All
          (λ b.
            (d.lt (k.maximum_human_human_distance s.human_sample human_sample) b.minimum_distance
              ≡ true)
            × (past_of b + lower ≤ upper + 1))
          s'.barriers
unfolding reset trim_down_trace_index_ranges_to
reset-IsInOrder ⦃d⦄ ⦃k⦄ o s human_sample lower upper sample_index h =
    let m : _ = k.maximum_human_human_distance s.human_sample human_sample in
    let (trimmed, e, order, ends) =
      trim_ranges_loop-Trims o upper (suc (length s.barriers)) s.barriers (omega arith) h in
    let (r, f, split) =
      reuse_element-Splits o (record s { barriers = trimmed }) human_sample order.descending in
    let (bs, g, order', all) =
      reuse_up_to-Reuses m lower upper trimmed r sample_index order ends split in
    (record s { barriers = bs }, rw (e, f, g), refl, order', all)
