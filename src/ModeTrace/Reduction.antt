-- ===== src/ModeTrace/Reduction.antt =====
-- The reduction of a trace (src/mode.cpp) to the entries between two indices.
use opera.Prelude.{
  ℕ, zero, suc, ◌+◌, ◌-◌, ◌≤◌, ◌<◌, ◌≡◌, refl, ap, ◌∙◌, ◌⊎◌, inl, inr, List, [], ◌∷◌, true, false,
  leb, Bool-cases, some, ok, err, Error, assertion, out_of_range, >>=-eq-ok, All, if◌then◌else◌,
  arith, length, is_nil, at, at-ok, at-lt, take, drop, leb→le, leb-false→lt,
}
use opera.Mode.{Mode, mode_eq}
use opera.ModeTrace.{
  ModeTraceEntry, ModeTrace, collect, reduce_between_indices, forward_loop, forward_index,
}

module _ {F : Type 0} where
  take-drop-step :
      (es : List (ModeTraceEntry F)) (i n : ℕ) (e : ModeTraceEntry F)
      → at es i ≡ ok e
      → take (suc n) (drop i es) ≡ e ∷ take n (drop (suc i) es)
  take-drop-step [] i n e h = cc
  take-drop-step (x ∷ es) zero n e h = let p : x ≡ e = cc in rw p refl
  take-drop-step (x ∷ es) (suc i) n e h = take-drop-step es i n e h

  collect-take :
      (es : List (ModeTraceEntry F)) (i n : ℕ)
      → i + n ≤ length es
      → collect es i n ≡ ok (take n (drop i es))
  unfolding collect
  collect-take es i zero h = refl
  collect-take es i (suc n) h =
      let (e, f) = at-ok es i (omega arith) in
      rw (f, collect-take es (suc i) n (omega arith), take-drop-step es i n e f) refl

  at-cases :
      (es : List (ModeTraceEntry F)) (i : ℕ)
      → ((e : ModeTraceEntry F) × (at es i ≡ ok e)) ⊎ (at es i ≡ err out_of_range)
  at-cases [] i = inr refl
  at-cases (x ∷ es) zero = inl (x, refl)
  at-cases (x ∷ es) (suc i) = at-cases es i

  collect-outside :
      (es : List (ModeTraceEntry F)) (i n : ℕ)
      → 0 < n
      → length es < i + n
      → (e : Error) × (collect es i n ≡ err e)
  unfolding collect
  collect-outside es i zero p h = absurd (omega arith)
  collect-outside es i (suc n) p h = elim (at-cases es i) [
    | inr f ↦ (out_of_range, rw f refl)
    | inl (e, f) ↦
        let inside : i < length es = at-lt es i f in
        let (why, g) = collect-outside es (suc i) n (omega arith) (omega arith) in
        (why, rw (f, g) refl)
  ]

module _ {F : Type 0} (t : ModeTrace F) (lower upper : ℕ) where
  unordered : leb lower upper ≡ false → reduce_between_indices t lower upper ≡ err assertion
  unfolding reduce_between_indices
  unordered out = elim (Bool-cases (is_nil t.entries)) [
    | inl e ↦ rw e refl
    | inr e ↦ rw (e, out) refl
  ]

  past_error :
      leb lower upper ≡ true
      → length t.entries ≤ upper
      → (e : Error) × (reduce_between_indices t lower upper ≡ err e)
  unfolding reduce_between_indices
  past_error ordered past = elim (Bool-cases (is_nil t.entries)) [
    | inl e ↦ (assertion, rw e refl)
    | inr e ↦
        let low : lower ≤ upper = leb→le lower upper ordered in
        let (why, f) =
          collect-outside t.entries lower (upper + 1 - lower) (omega arith) (omega arith) in
        (why, rw (e, ordered, f) refl)
  ]

-- Reducing a trace to a lower and an upper index returns exactly if the lower one is not above the
-- upper one and the upper one is an index of the trace. The result has the entries between the two,
-- both included.
pub reduce_between_indices-take :
    {F : Type 0} (t : ModeTrace F) (lower upper : ℕ)
    → ((lower ≤ upper)
        × (upper < length t.entries)
        × (reduce_between_indices t lower upper
            ≡ ok (record t { entries = take (upper + 1 - lower) (drop lower t.entries) })))
      ⊎ (((upper < lower) ⊎ (length t.entries ≤ upper))
          × (e : Error) × (reduce_between_indices t lower upper ≡ err e))
unfolding reduce_between_indices
reduce_between_indices-take t lower upper = elim (Bool-cases (leb lower upper)) [
  | inr out ↦ inr (inl (leb-false→lt lower upper out), assertion, unordered t lower upper out)
  | inl ordered ↦ elim (Bool-cases (leb (length t.entries) upper)) [
    | inl past ↦
        let beyond : length t.entries ≤ upper = leb→le (length t.entries) upper past in
        let (why, f) = past_error t lower upper ordered beyond in inr (inr beyond, why, f)
    | inr within ↦
        let inside : upper < length t.entries = leb-false→lt (length t.entries) upper within in
        let low : lower ≤ upper = leb→le lower upper ordered in
        let full : is_nil t.entries ≡ false = ground arith in
        inl (
          low,
          inside,
          rw (full, ordered, collect-take t.entries lower (upper + 1 - lower) (omega arith)) refl,
        )
  ]
]

module _ {F : Type 0} where
  forward_loop-first :
      (es : List (ModeTraceEntry F)) (i k : ℕ) (mode : Mode)
      → forward_loop es i mode ≡ ok (some k)
      → (n : ℕ) × (k ≡ i + n)
        × (e : ModeTraceEntry F) × (at es n ≡ ok e)
        × (mode_eq e.mode mode ≡ ok true)
        × All (λ x. mode_eq x.mode mode ≡ ok false) (take n es)
  unfolding forward_loop
  forward_loop-first [] i k mode h = cc
  forward_loop-first (e ∷ es) i k mode h =
      let (found, f, g) =
        >>=-eq-ok (mode_eq e.mode mode)
          (λ found. if found then ok (some i) else forward_loop es (suc i) mode) h in
      elim (Bool-cases found) [
        | inl hit ↦
            let p : ok (some i) ≡ ok (some k) = rw hit at g in
            let q : i ≡ k = cc in (0, omega arith, e, refl, f ∙ ap ok hit, tt)
        | inr miss ↦
            let g' : forward_loop es (suc i) mode ≡ ok (some k) = rw miss at g in
            let (n, p, e', a, b, before) = forward_loop-first es (suc i) k mode g' in
            (suc n, omega arith, e', a, b, (f ∙ ap ok miss, before))
      ]

-- Where `forward_index` returns an index, the entry there has an equal mode, and the entries before
-- it have modes that are not equal.
pub forward_index-first :
    {F : Type 0} (t : ModeTrace F) (mode : Mode) (k : ℕ)
    → forward_index t mode ≡ ok (some k)
    → (e : ModeTraceEntry F) × (at t.entries k ≡ ok e)
      × (mode_eq e.mode mode ≡ ok true)
      × All (λ x. mode_eq x.mode mode ≡ ok false) (take k t.entries)
unfolding forward_index
forward_index-first t mode k h =
    let (n, p, e, a, b, before) = forward_loop-first t.entries 0 k mode h in
    let q : n ≡ k = omega arith in (e, rw (← q) a, b, rw (← q) before)
