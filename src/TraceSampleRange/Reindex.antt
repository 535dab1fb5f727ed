-- ===== src/TraceSampleRange/Reindex.antt =====
-- What the range operations of src/trace_sample_range.cpp do to the bound at each trace index.
use opera.Prelude.{
  ℕ, zero, suc, ◌+◌, ◌-◌, ◌≤◌, ◌<◌, ◌≡◌, refl, ◌↔◌, List, [], ◌∷◌, ltb, leb, if◌then◌else◌, ok, err,
  precondition, Succeeds, arith, length, at, drop, take, drop_last, at-drop, at-ok, length-drop,
  take-all, take-drop_last, length-drop_last,
}
use opera.TraceSampleRange.{
  TraceSampleRange, maximum_trace_index, upper_bound, pop_front_times, scale_down_trace_of,
  trim_loop, trim_down_trace_to, origin,
}

-- The first trace index past the range.
abbrev pub past : TraceSampleRange → ℕ
past r = r.initial.trace + length r.upper_bounds

pub maximum_trace_index-ok :
    (r : TraceSampleRange) → 0 < length r.upper_bounds → maximum_trace_index r ≡ ok (past r - 1)
unfolding maximum_trace_index
maximum_trace_index-ok r h = grind arith

pub maximum_trace_index-inv :
    (r : TraceSampleRange) {m : ℕ}
    → maximum_trace_index r ≡ ok m
    → (0 < length r.upper_bounds) × (suc m ≡ past r)
unfolding maximum_trace_index
maximum_trace_index-inv r h = grind arith

upper_bound_lem :
    (r : TraceSampleRange) (i : ℕ)
    → upper_bound r i ≡ (
        if leb r.initial.trace i
        then (if ltb i (past r) then at r.upper_bounds (i - r.initial.trace) else err precondition)
        else err precondition)
unfolding upper_bound
upper_bound_lem r i = grind arith

pop_front_times-drop : (n : ℕ) (xs : List ℕ) → n ≤ length xs → pop_front_times n xs ≡ ok (drop n xs)
unfolding pop_front_times
pop_front_times-drop zero xs h = refl
pop_front_times-drop (suc n) [] h = absurd (omega arith)
pop_front_times-drop (suc n) (x ∷ xs) h = pop_front_times-drop n xs (omega arith)

-- A call `upper_bound(i)` returns exactly at the trace indexes from the initial one to the maximum
-- one, and throws everywhere else, on an empty range at every index.
pub upper_bound_domain :
    (r : TraceSampleRange) (i : ℕ)
    → Succeeds (upper_bound r i)
      ↔ ((r.initial.trace ≤ i) × (i < r.initial.trace + length r.upper_bounds))
upper_bound_domain r i = (within, defined)
  where
    within :
        Succeeds (upper_bound r i)
        → (r.initial.trace ≤ i) × (i < r.initial.trace + length r.upper_bounds)
    within (a, e) = ground (arith, upper_bound_lem r i)

    defined :
        (r.initial.trace ≤ i) × (i < r.initial.trace + length r.upper_bounds)
        → Succeeds (upper_bound r i)
    defined (h, k) =
        let (a, e) = at-ok r.upper_bounds (i - r.initial.trace) (omega arith) in
        (a, ground (arith, upper_bound_lem r i))

unfoldable pub scaled : TraceSampleRange → ℕ → TraceSampleRange
scaled r amount =
    if ltb r.initial.trace amount
    then record { initial = origin; upper_bounds = drop (amount - r.initial.trace) r.upper_bounds }
    else record r { initial = record r.initial { trace = r.initial.trace - amount } }

-- A range whose maximum trace index is not below the amount.
pub scale_down_trace_of-ok :
    (r : TraceSampleRange) (amount : ℕ) {m : ℕ}
    → maximum_trace_index r ≡ ok m
    → amount ≤ m
    → scale_down_trace_of r amount ≡ ok (scaled r amount)
unfolding scale_down_trace_of scaled
scale_down_trace_of-ok r amount {m} e h = grind (
  arith,
  maximum_trace_index-inv r e,
  pop_front_times-drop (amount - r.initial.trace) r.upper_bounds,
)

pub past-scaled :
    (r : TraceSampleRange) (amount : ℕ) → amount < past r → past (scaled r amount) ≡ past r - amount
unfolding scaled
past-scaled r amount h = ground (arith, length-drop (amount - r.initial.trace) r.upper_bounds)

pub length-scaled :
    (r : TraceSampleRange) (amount : ℕ)
    → 0 < length r.upper_bounds
    → amount < past r
    → 0 < length (scaled r amount).upper_bounds
unfolding scaled
length-scaled r amount k h = ground (arith, length-drop (amount - r.initial.trace) r.upper_bounds)

upper_bound-scaled :
    (r : TraceSampleRange) (amount i : ℕ)
    → amount < past r
    → upper_bound (scaled r amount) i ≡ upper_bound r (i + amount)
unfolding scaled
upper_bound-scaled r amount i h = ground (
  arith,
  upper_bound_lem (scaled r amount) i,
  upper_bound_lem r (i + amount),
  past-scaled r amount,
  at-drop (amount - r.initial.trace) r.upper_bounds i,
)

-- Scaling down by an amount that is not above the maximum trace index returns a range in which
-- every trace index `i` has the bound, or the exception, that `i + amount` had before, and whose
-- maximum trace index is lower by the amount.
pub scale_down_shifts :
    (r : TraceSampleRange) (amount m : ℕ)
    → maximum_trace_index r ≡ ok m
    → amount ≤ m
    → (r' : TraceSampleRange) × (scale_down_trace_of r amount ≡ ok r')
      × ((i : ℕ) → upper_bound r' i ≡ upper_bound r (i + amount))
      × (maximum_trace_index r' ≡ ok (m - amount))
scale_down_shifts r amount m e h = (
  scaled r amount,
  scale_down_trace_of-ok r amount e h,
  λ i. upper_bound-scaled r amount i below,
  ground (
    arith,
    inv,
    past-scaled r amount,
    maximum_trace_index-ok (scaled r amount),
    length-scaled r amount,
  ),
)
  where
    inv : (0 < length r.upper_bounds) × (suc m ≡ past r)
    inv = maximum_trace_index-inv r e

    below : amount < past r
    below = omega (arith, inv)

trimmed : TraceSampleRange → ℕ → TraceSampleRange
trimmed r bound = record r { upper_bounds = take (suc bound - r.initial.trace) r.upper_bounds }

trim_loop-lem :
    (fuel : ℕ) (r : TraceSampleRange) (bound : ℕ)
    → length r.upper_bounds < fuel
    → trim_loop fuel r bound ≡ ok (trimmed r bound)
unfolding trim_loop trimmed
trim_loop-lem zero r bound h = absurd (omega arith)
trim_loop-lem (suc fuel) r bound h = ground (
  arith,
  maximum_trace_index-ok r,
  trim_loop-lem fuel (record r { upper_bounds = drop_last r.upper_bounds }) bound,
  length-drop_last r.upper_bounds,
  take-drop_last (suc bound - r.initial.trace) r.upper_bounds,
  take-all (suc bound - r.initial.trace) r.upper_bounds,
)

-- The trimming loop ends, and keeps of the bounds exactly those at trace indexes up to the bound:
-- none if the range starts above it, all if the range ends below it.
pub trim_down-take :
    (r : TraceSampleRange) (bound : ℕ)
    → trim_down_trace_to r bound
      ≡ ok (record r { upper_bounds = take (suc bound - r.initial.trace) r.upper_bounds })
unfolding trim_down_trace_to trimmed
trim_down-take r bound = trim_loop-lem (suc (length r.upper_bounds)) r bound (omega arith)
