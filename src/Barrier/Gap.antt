-- ===== src/Barrier/Gap.antt =====
-- `update_with` of src/barrier.cpp over a gap of several trace indexes.
use opera.Prelude.{
  ℕ, zero, suc, ◌+◌, ◌-◌, ◌/◌, ◌^◌, ◌≤◌, ◌<◌, ◌≡◌, ap, ◌∙◌, [], ◌∷◌, ◌++◌, ltb, Bool-cases, inl,
  inr, ok, arith, length, replicate, length-append, length-replicate, ltb→lt, lt→ltb, ltb-false→le,
  sym,
}
use opera.TraceSampleRange.{
  TraceSampleRange, TraceSampleIndex, maximum_trace_index, increase_trace_index,
}
use opera.TraceSampleRange.Reindex.{past, maximum_trace_index-ok, maximum_trace_index-inv}
use opera.Barrier.{MinimumDistanceBarrier, update_with, fill_loop, sub64}
use mathlib.Core.List.{append_assoc, append-nil}

-- As many new trace indexes, each with the bound 0.
abbrev pub extended : TraceSampleRange → ℕ → TraceSampleRange
extended r n = record r { upper_bounds = r.upper_bounds ++ replicate n 0 }

extended-zero : (r : TraceSampleRange) → extended r 0 ≡ r
extended-zero r = ap (λ xs. record r { upper_bounds = xs }) (append-nil r.upper_bounds)

extended-increase :
    (r : TraceSampleRange) (n : ℕ) → extended (increase_trace_index r) n ≡ extended r (suc n)
unfolding increase_trace_index
extended-increase r n =
    ap (λ xs. record r { upper_bounds = xs }) (append_assoc r.upper_bounds (0 ∷ []) (replicate n 0))

past-increase : (r : TraceSampleRange) → past (increase_trace_index r) ≡ past r + 1
unfolding increase_trace_index
past-increase r = omega (arith, length-append r.upper_bounds (0 ∷ []))

length-increase : (r : TraceSampleRange) → 0 < length (increase_trace_index r).upper_bounds
unfolding increase_trace_index
length-increase r = omega (arith, length-append r.upper_bounds (0 ∷ []))

pub sub64-exact : (a b : ℕ) → a < 2 ^ 64 → b ≤ a → sub64 a b ≡ a - b
sub64-exact a b h k = omega arith

fill_loop-extended :
    (fuel i trace : ℕ) (r : TraceSampleRange)
    → 0 < length r.upper_bounds
    → past r ≤ trace + 1
    → trace < 2 ^ 64
    → trace + 1 < fuel + past r
    → fill_loop fuel i trace r ≡ ok (extended r ((trace + 2 - past r - i) / 2))
unfolding fill_loop
fill_loop-extended zero i trace r n h w f = absurd (omega arith)
fill_loop-extended (suc fuel) i trace r n h w f =
    rw (maximum_trace_index-ok r n, sub64-exact trace (past r - 1) w (omega arith))
      (elim (Bool-cases (ltb i (trace - (past r - 1)))) [
        | inl more ↦
            let e : suc ((trace + 2 - past (increase_trace_index r) - (i + 1)) / 2)
                ≡ (trace + 2 - past r - i) / 2 =
              omega (arith, past-increase r, ltb→lt i _ more) in
            rw more (
              fill_loop-extended fuel (i + 1) trace (increase_trace_index r) (length-increase r)
                (omega (arith, past-increase r, ltb→lt i _ more)) w (omega (arith, past-increase r))
              ∙ ap ok (extended-increase r _ ∙ ap (extended r) e))
        | inr done ↦
            let e : 0 ≡ (trace + 2 - past r - i) / 2 = omega (arith, ltb-false→le i _ done) in
            rw done (ap ok (sym (extended-zero r) ∙ ap (extended r) e))
      ])

-- A barrier is extended to an index whose trace lies beyond the range: the loop ends, and adds a
-- trace index for every second one that is missing only (the gap halved, rounded up), each with
-- the bound 0, so that `index.sample` is not recorded.
pub update_with_gap :
    {F : Type 0} (b : MinimumDistanceBarrier F) (index : TraceSampleIndex) (m : ℕ)
    → maximum_trace_index b.range ≡ ok m
    → m < index.trace
    → index.trace < 2 ^ 64
    → update_with b index
      ≡ ok (record b {
        range = record b.range {
          upper_bounds = b.range.upper_bounds ++ replicate ((index.trace - m + 1) / 2) 0;
        };
      })
unfolding update_with
update_with_gap b index m e h w =
    let inv : (0 < length b.range.upper_bounds) × (suc m ≡ past b.range) =
      maximum_trace_index-inv b.range e in
    let count : (index.trace + 2 - past b.range - 0) / 2 ≡ (index.trace - m + 1) / 2 =
      omega (arith, inv) in
    rw (
      e,
      lt→ltb m index.trace h,
      fill_loop-extended (suc index.trace) 0 index.trace b.range inv.0 (omega (arith, inv)) w
          (omega (arith, inv)),
      count,
    )

-- So from a gap of two on the range still ends below the index that it was updated with.
pub update_with_falls_short :
    {F : Type 0} (b : MinimumDistanceBarrier F) (index : TraceSampleIndex) (m : ℕ)
    → maximum_trace_index b.range ≡ ok m
    → m + 1 < index.trace
    → index.trace < 2 ^ 64
    → (b' : MinimumDistanceBarrier F) × (m' : ℕ) × (update_with b index ≡ ok b')
      × (maximum_trace_index b'.range ≡ ok m')
      × (m' < index.trace)
update_with_falls_short b index m e h w =
    let n : ℕ = (index.trace - m + 1) / 2 in
    (
      record b { range = extended b.range n },
      m + n,
      update_with_gap b index m e (omega arith) w,
      ground (
        arith,
        maximum_trace_index-inv b.range e,
        maximum_trace_index-ok (extended b.range n),
        length-append b.range.upper_bounds (replicate n 0),
        length-replicate n (let z : ℕ = 0 in z),
      ),
      omega arith,
    )
