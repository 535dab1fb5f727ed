-- ===== src/Section/Reset.antt =====
-- `_reuse_element` and `reset` of src/barrier.cpp: what of a section still serves another human
-- sample. The result -1 of `_reuse_element` is `none`.
use opera.Prelude.{
  ℕ, zero, suc, ◌+◌, ◌-◌, ◌/◌, List, [], ◌∷◌, Option, none, some, Bool, true, false, ltb, leb, ◌==◌,
  if◌then◌else◌, Result, ok, err, undefined, out_of_fuel, ◌>>=◌, length, is_nil, at, drop_last,
  set_back,
}
use opera.Prelude.Doubles.{Doubles}
use opera.TraceSampleRange
use opera.TraceSampleRange.{TraceSampleRange}
use opera.Barrier.{MinimumDistanceBarrier, trim_down_range_to, scale_down_range_of}
use opera.Section.{Section, SectionKind}

module _ {F : Type 0} ⦃d : Doubles F⦄ where
  -- The search loop, with the rounds left; `distance` is the value that each round computes again.
  unfoldable pub reuse_loop : ℕ → F → List (MinimumDistanceBarrier F) → ℕ → ℕ → Result ℕ
  reuse_loop zero distance bs lower upper = err out_of_fuel
  reuse_loop (suc fuel) distance bs lower upper = elim (ltb (lower + 1) upper) [
    | false ↦ ok ((upper + lower) / 2)
    | true ↦ at bs ((upper + lower) / 2) >>= λ b. elim (d.le b.minimum_distance distance) [
      | true ↦ reuse_loop fuel distance bs lower ((upper + lower) / 2)
      | false ↦ reuse_loop fuel distance bs ((upper + lower) / 2) upper
    ]
  ]

  unfoldable pub search_element : F → List (MinimumDistanceBarrier F) → Result (Option ℕ)
  search_element distance [] = ok none
  search_element distance (b ∷ bs) = do
    first ← at (b ∷ bs) 0
    last ← at (b ∷ bs) (length bs)
    if d.le first.minimum_distance distance
        then ok none
        else if d.lt distance last.minimum_distance
        then ok (some (length bs))
        else (reuse_loop (suc (length bs)) distance (b ∷ bs) 0 (length bs) >>= λ i. ok (some i))

module _ {S F : Type 0} ⦃d : Doubles F⦄ ⦃k : SectionKind S F⦄ where
  unfoldable pub reuse_element : Section S F → S → Result (Option ℕ)
  reuse_element s other_human_sample =
      search_element (k.maximum_human_human_distance s.human_sample other_human_sample) s.barriers

module _ {F : Type 0} where
  -- The loop of `_trim_down_trace_index_ranges_to`, with the rounds left.
  unfoldable pub trim_ranges_loop :
      ℕ → List (MinimumDistanceBarrier F) → ℕ → Result (List (MinimumDistanceBarrier F))
  trim_ranges_loop zero bs trace_index_bound = err out_of_fuel
  trim_ranges_loop (suc fuel) bs trace_index_bound =
      let rest = trim_ranges_loop fuel (drop_last bs) trace_index_bound in
      if is_nil bs then ok bs else do
        b ← at bs (length bs - 1)
        last ← TraceSampleRange.maximum_trace_index b.range
        if ltb trace_index_bound last
            then (if leb b.range.initial.trace trace_index_bound
                then (trim_down_range_to b trace_index_bound >>= λ b'. ok (set_back bs b'))
                else rest)
            else ok bs

  unfoldable pub trim_down_trace_index_ranges_to :
      List (MinimumDistanceBarrier F) → ℕ → Result (List (MinimumDistanceBarrier F))
  trim_down_trace_index_ranges_to bs trace_index_bound =
      trim_ranges_loop (suc (length bs)) bs trace_index_bound

  unfoldable pub scale_all :
      List (MinimumDistanceBarrier F) → ℕ → Result (List (MinimumDistanceBarrier F))
  scale_all [] amount = ok []
  scale_all (b ∷ bs) amount = do
    b' ← scale_down_range_of b amount
    bs' ← scale_all bs amount
    ok (b' ∷ bs')

  unfoldable pub scale_down_trace_index_ranges_of :
      List (MinimumDistanceBarrier F) → ℕ → Result (List (MinimumDistanceBarrier F))
  scale_down_trace_index_ranges_of bs amount = if ltb 0 amount then scale_all bs amount else ok bs

  -- `while (_barriers.size()-1 > ul_reuse) _barriers.pop_back();` with the rounds left. On an empty
  -- deque the test wraps around to a true one.
  unfoldable pub keep_up_to_loop :
      ℕ → List (MinimumDistanceBarrier F) → ℕ → Result (List (MinimumDistanceBarrier F))
  keep_up_to_loop zero bs ul_reuse = err out_of_fuel
  keep_up_to_loop (suc fuel) bs ul_reuse =
      let rest = keep_up_to_loop fuel (drop_last bs) ul_reuse in
      if is_nil bs then err undefined else if ltb ul_reuse (length bs - 1) then rest else ok bs

  -- Whether the first barrier lies before the given trace-sample index; `or` and `and` stop early.
  unfoldable pub is_outdated : MinimumDistanceBarrier F → ℕ → ℕ → Result Bool
  is_outdated b lower sample_index = do
    last ← TraceSampleRange.maximum_trace_index b.range
    if ltb last lower
        then ok true
        else if last == lower
        then (TraceSampleRange.maximum_sample_index b.range >>= λ sample.
            ok (ltb sample sample_index))
        else ok false

  unfoldable pub drop_outdated :
      List (MinimumDistanceBarrier F) → ℕ → ℕ → Result (List (MinimumDistanceBarrier F))
  drop_outdated [] lower sample_index = ok []
  drop_outdated (b ∷ bs) lower sample_index =
      let rest = drop_outdated bs lower sample_index in
      is_outdated b lower sample_index >>= λ outdated. if outdated then rest else ok (b ∷ bs)

-- The part of `reset` after the trimming, for the element to reuse.
unfoldable pub reuse_up_to :
    {F : Type 0}
    → List (MinimumDistanceBarrier F)
    → Option ℕ
    → ℕ
    → ℕ
    → Result (List (MinimumDistanceBarrier F))
reuse_up_to bs none lower sample_index = ok []
reuse_up_to bs (some ul_reuse) lower sample_index = do
  kept ← keep_up_to_loop (suc (length bs)) bs ul_reuse
  current ← drop_outdated kept lower sample_index
  scale_down_trace_index_ranges_of current lower

module _ {S F : Type 0} ⦃d : Doubles F⦄ ⦃k : SectionKind S F⦄ where
  -- The interval of trace indexes is given by its bounds.
  unfoldable pub reset : Section S F → S → ℕ → ℕ → ℕ → Result (Section S F)
  reset s human_sample lower upper sample_index = do
    trimmed ← trim_down_trace_index_ranges_to s.barriers upper
    reuse ← reuse_element (record s { barriers = trimmed }) human_sample
    bs ← reuse_up_to trimmed reuse lower sample_index
    ok (record s { barriers = bs })
