-- ===== src/LookAhead/Earliest.antt =====
-- The index that a discarding job finds (src/lookahead_job.cpp) is the first one with a collision.
use opera.Prelude.{
  ℕ, zero, suc, ◌+◌, ◌-◌, ◌≤◌, ◌<◌, ◌≡◌, refl, sym, ap, subst, ◌∙◌, inl, inr, List, Bool, true,
  false, not, ◌&&◌, ◌==◌, Bool-cases, Option, none, some, ok, ok-eq, arith, length, at, at-ok, ltb,
}
use opera.Prelude.Doubles.{Doubles}
use opera.Prelude.Arithmetic.{Arithmetic}
use opera.Geometry.{Box}
use opera.Bodies.Sample.{
  BodySegmentSample, bounding_box, computed_box, segment_distance, intersects,
}
use opera.RobotHistory.{RobotStateHistory}
use opera.LookAhead.{LookAheadJob}
use opera.LookAhead.Searching.{segment_samples, bounds, discard_loop, discard_index}

module _ {F : Type 0} ⦃d : Doubles F⦄ ⦃a : Arithmetic F⦄ where
  -- A robot sample that is known meets the human sample.
  unfoldable pub collides : BodySegmentSample F → BodySegmentSample F → Bool
  collides human_sample robot_sample =
      not robot_sample.empty && (intersects human_sample robot_sample).0

  -- The human sample with another pointer to its box.
  with_box : BodySegmentSample F → Option (Box F) → BodySegmentSample F
  with_box s b = record s { bb = b }

  boxed-intersects :
      (s : BodySegmentSample F) (b : Option (Box F)) (t u : BodySegmentSample F)
      → (intersects (intersects (with_box s b) u).1.0 t).0 ≡ (intersects (with_box s b) t).0
  unfolding intersects bounding_box with_box segment_distance computed_box
  boxed-intersects s none t u = refl
  boxed-intersects s (some b) t u = refl

  collides-boxed : (s t u : BodySegmentSample F) → collides (intersects s u).1.0 t ≡ collides s t
  unfolding collides with_box
  collides-boxed s t u = ap (λ b. not t.empty && b) (boxed-intersects s s.bb t u)

  -- No sample from one index up to another one, excluded, collides.
  unfoldable pub ClearBetween : BodySegmentSample F → List (BodySegmentSample F) → ℕ → ℕ → Type 0
  ClearBetween human ss lower upper =
      (j : ℕ) (s : BodySegmentSample F)
      → lower ≤ j
      → j < upper
      → at ss j ≡ ok s
      → collides human s ≡ false

  -- The index is the first one in the range whose sample collides, or there is none.
  unfoldable pub IsFirst :
      BodySegmentSample F → List (BodySegmentSample F) → ℕ → ℕ → Option ℕ → Type 0
  IsFirst human ss lower upper none = ClearBetween human ss lower upper
  IsFirst human ss lower upper (some i) =
      (lower ≤ i)
      × (i < upper)
      × ((s : BodySegmentSample F) × (at ss i ≡ ok s) × (collides human s ≡ true))
      × ClearBetween human ss lower i

  ClearBetween-boxed :
      (human u : BodySegmentSample F) (ss : List (BodySegmentSample F)) (lower upper : ℕ)
      → ClearBetween (intersects human u).1.0 ss lower upper
      → ClearBetween human ss lower upper
  unfolding ClearBetween
  ClearBetween-boxed human u ss lower upper h j s l m e =
      sym (collides-boxed human s u) ∙ h j s l m e

  IsFirst-boxed :
      (human u : BodySegmentSample F) (ss : List (BodySegmentSample F)) (lower upper : ℕ)
      (r : Option ℕ)
      → IsFirst (intersects human u).1.0 ss lower upper r
      → IsFirst human ss lower upper r
  unfolding IsFirst
  IsFirst-boxed human u ss lower upper none h = ClearBetween-boxed human u ss lower upper h
  IsFirst-boxed human u ss lower upper (some i) h =
      let (s, e, c) = h.2 in
      (
        h.0,
        h.1,
        (s, e, sym (collides-boxed human s u) ∙ c),
        ClearBetween-boxed human u ss lower i h.3,
      )

  ClearBetween-step :
      (human s : BodySegmentSample F) (ss : List (BodySegmentSample F)) (i upper : ℕ)
      → at ss i ≡ ok s
      → collides human s ≡ false
      → ClearBetween human ss (i + 1) upper
      → ClearBetween human ss i upper
  unfolding ClearBetween
  ClearBetween-step human s ss i upper e c h j t l m f = elim (Bool-cases (j == i)) [
    | inl k ↦
        let same : j ≡ i = ground (arith, k) in
        let ok_same = ok-eq s t (sym e ∙ subst (λ n. at ss n ≡ ok t) same f) in
        subst (λ x. collides human x ≡ false) ok_same c
    | inr k ↦ h j t (ground (arith, k, l)) m f
  ]

  IsFirst-step :
      (human s : BodySegmentSample F) (ss : List (BodySegmentSample F)) (i upper : ℕ) (r : Option ℕ)
      → at ss i ≡ ok s
      → collides human s ≡ false
      → IsFirst human ss (i + 1) upper r
      → IsFirst human ss i upper r
  unfolding IsFirst
  IsFirst-step human s ss i upper none e c h = ClearBetween-step human s ss i upper e c h
  IsFirst-step human s ss i upper (some j) e c h =
      (omega (arith, h.0), h.1, h.2, ClearBetween-step human s ss i j e c h.3)

  IsFirst-here :
      (human s : BodySegmentSample F) (ss : List (BodySegmentSample F)) (i upper : ℕ)
      → at ss i ≡ ok s
      → collides human s ≡ true
      → i < upper
      → IsFirst human ss i upper (some i)
  unfolding IsFirst ClearBetween
  IsFirst-here human s ss i upper e c h =
      (omega arith, h, (s, e, c), λ j t l m f. absurd (omega (arith, l, m)))

  module _ (left i : ℕ) (human s : BodySegmentSample F) (ss : List (BodySegmentSample F))
      (e : at ss i ≡ ok s) where
    loop_unknown :
        s.empty ≡ true → discard_loop (suc left) i human ss ≡ discard_loop left (i + 1) human ss
    unfolding discard_loop
    loop_unknown k = rw (e, k) refl

    loop_hit :
        s.empty ≡ false
        → (intersects human s).0 ≡ true
        → discard_loop (suc left) i human ss ≡ ok (some i)
    unfolding discard_loop
    loop_hit k m = simp (e, k, m) refl

    loop_clear :
        s.empty ≡ false
        → (intersects human s).0 ≡ false
        → discard_loop (suc left) i human ss ≡ discard_loop left (i + 1) (intersects human s).1.0 ss
    unfolding discard_loop
    loop_clear k m = simp (e, k, m) refl

    unknown-collides : s.empty ≡ true → collides human s ≡ false
    unfolding collides
    unknown-collides k = ground (arith, k)

    known-collides : s.empty ≡ false → collides human s ≡ (intersects human s).0
    unfolding collides
    known-collides k = ground (arith, k)

  -- A result of the rest, found from the next index on.
  further :
      (left i : ℕ) (human s : BodySegmentSample F) (ss : List (BodySegmentSample F)) (r : Option ℕ)
      → at ss i ≡ ok s
      → collides human s ≡ false
      → IsFirst human ss (i + 1) (i + 1 + left) r
      → IsFirst human ss i (i + suc left) r
  further left i human s ss r e c h =
      let same : i + 1 + left ≡ i + suc left = omega arith in
      subst (λ n. IsFirst human ss i n r) same (IsFirst-step human s ss i (i + 1 + left) r e c h)

  discard_loop-IsFirst :
      (left i : ℕ) (human : BodySegmentSample F) (ss : List (BodySegmentSample F))
      → i + left ≤ length ss
      → (r : Option ℕ) × (discard_loop left i human ss ≡ ok r) × IsFirst human ss i (i + left) r
  unfolding discard_loop IsFirst ClearBetween
  discard_loop-IsFirst zero i human ss h = (none, refl, λ j s l m e. absurd (omega (arith, l, m)))
  discard_loop-IsFirst (suc left) i human ss h =
      let (s, e) = at-ok ss i (omega (arith, h)) in
      elim (Bool-cases s.empty) [
        | inl k ↦
            let (r, f, first) = discard_loop-IsFirst left (i + 1) human ss (omega (arith, h)) in
            (
              r,
              loop_unknown left i human s ss e k ∙ f,
              further left i human s ss r e (unknown-collides left i human s ss e k) first,
            )
        | inr k ↦ elim (Bool-cases (intersects human s).0) [
          | inl m ↦ (
            some i,
            loop_hit left i human s ss e k m,
            IsFirst-here human s ss i (i + suc left) e (known-collides left i human s ss e k ∙ m)
                (omega arith),
          )
          | inr m ↦
              let (r, f, first) =
                discard_loop-IsFirst left (i + 1) (intersects human s).1.0 ss (omega (arith, h)) in
              (
                r,
                loop_clear left i human s ss e k m ∙ f,
                further left i human s ss r e (known-collides left i human s ss e k ∙ m)
                    (IsFirst-boxed human s ss (i + 1) (i + 1 + left) r first),
              )
        ]
      ]

  none_left :
      (lower upper : ℕ) (human : BodySegmentSample F) (ss : List (BodySegmentSample F))
      → upper < lower
      → IsFirst human ss lower (upper + 1) none
  unfolding IsFirst ClearBetween
  none_left lower upper human ss h j s l m e = absurd (omega (arith, h, l, m))

  -- A discarding job finds the earliest collision. Where its samples are found and the search has
  -- bounds, the upper one being an index of the samples, the search returns, with the first index
  -- from the lower to the upper bound whose sample is known and intersects the human sample, or with
  -- none where there is no such index.
  pub discard_index-IsFirst :
      (job : LookAheadJob F) (h : RobotStateHistory F) (ss : List (BodySegmentSample F))
      (lower upper : ℕ)
      → segment_samples job h ≡ ok ss
      → bounds job h 0 (length ss) ≡ ok (some (lower, upper))
      → upper < length ss
      → (r : Option ℕ) × (discard_index job h ≡ ok r)
        × IsFirst job.human_sample ss lower (upper + 1) r
  unfolding discard_index discard_loop
  discard_index-IsFirst job h ss lower upper e b inside = elim (Bool-cases (ltb upper lower)) [
    | inl k ↦
        let past : upper < lower = ground (arith, k) in
        let z : upper + 1 - lower ≡ 0 = omega (arith, past) in
        (none, rw (e, b, z) refl, none_left lower upper job.human_sample ss past)
    | inr k ↦
        let low : lower ≤ upper = ground (arith, k) in
        let (r, f, first) =
          discard_loop-IsFirst (upper + 1 - lower) lower job.human_sample ss
            (omega (arith, low, inside)) in
        let same : lower + (upper + 1 - lower) ≡ upper + 1 = omega (arith, low) in
        (r, rw (e, b) f, subst (λ n. IsFirst job.human_sample ss lower n r) same first)
  ]
