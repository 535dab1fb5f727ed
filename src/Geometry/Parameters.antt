-- ===== src/Geometry/Parameters.antt =====
-- The parameters of the closest points of two segments (src/geometry.cpp) stay on the segments.
use opera.Prelude.{◌≡◌, refl, inl, inr, true, false, Bool-cases}
use opera.Prelude.Doubles.{Doubles, IsOrdered, not_lt_le}
use opera.Prelude.Arithmetic.{Arithmetic, IsPositive}
use opera.Geometry.{Point, dot}
use opera.Geometry.Segments.{SegmentParameters, clamp_s, restrict_s, clamp_t, segment_parameters}

module _ {F : Type 0} ⦃d : Doubles F⦄ where
  -- 0 <= n <= m
  pub IsFraction : F → F → Type 0
  IsFraction n m = (d.le d.zero n ≡ true) × (d.le n m ≡ true)

module _ {F : Type 0} ⦃d : Doubles F⦄ ⦃r : Arithmetic F⦄ (o : IsOrdered d)
    (g : IsPositive d r) where
  dot_nonneg : (v : Point F) → d.le d.zero (dot v v) ≡ true
  unfolding dot
  dot_nonneg v =
      g.add_nonneg _ _ (g.add_nonneg _ _ (g.square_nonneg v.x) (g.square_nonneg v.y))
        (g.square_nonneg v.z)

  clamp_s-IsFraction :
      (a b c d' e : F)
      → d.le d.zero c ≡ true
      → IsFraction (clamp_s a b c d' e).s_n (clamp_s a b c d' e).s_d
        × (d.le d.zero (clamp_s a b c d' e).t_d ≡ true)
  unfolding clamp_s IsFraction
  clamp_s-IsFraction a b c d' e h =
      let D : F = r.sub (r.mul a c) (r.mul b b) in
      let s_n : F = r.sub (r.mul b e) (r.mul c d') in
      elim (Bool-cases (d.lt D r.small_value)) [
        | inl k ↦ rw k ((o.le_refl d.zero, g.zero_le_one), h)
        | inr k ↦
            let positive : d.le d.zero D ≡ true =
              o.le_trans d.zero r.small_value D g.zero_le_small (not_lt_le o D r.small_value k) in
            elim (Bool-cases (d.lt s_n d.zero)) [
              | inl l ↦ rw (k, l) ((o.le_refl d.zero, positive), h)
              | inr l ↦ elim (Bool-cases (d.lt D s_n)) [
                | inl m ↦ rw (k, l, m) ((positive, o.le_refl D), h)
                | inr m ↦ rw (k, l, m) ((not_lt_le o s_n d.zero l, not_lt_le o D s_n m), positive)
              ]
            ]
      ]

  restrict_s-IsFraction :
      (a value : F) (p : SegmentParameters F) (t_n : F)
      → IsFraction p.s_n p.s_d
      → IsFraction (restrict_s a value p t_n).s_n (restrict_s a value p t_n).s_d
  unfolding restrict_s IsFraction
  restrict_s-IsFraction a value p t_n h = elim (Bool-cases (d.lt value d.zero)) [
    | inl e ↦ rw e (o.le_refl d.zero, o.le_trans d.zero p.s_n p.s_d h.0 h.1)
    | inr e ↦ elim (Bool-cases (d.lt a value)) [
      | inl e' ↦ rw (e, e') (o.le_trans d.zero p.s_n p.s_d h.0 h.1, o.le_refl p.s_d)
      | inr e' ↦ rw (e, e') (not_lt_le o value d.zero e, not_lt_le o a value e')
    ]
  ]

  zero-IsFraction : (m : F) → d.le d.zero m ≡ true → IsFraction d.zero m
  unfolding IsFraction
  zero-IsFraction m h = (o.le_refl d.zero, h)

  whole-IsFraction : (m : F) → d.le d.zero m ≡ true → IsFraction m m
  unfolding IsFraction
  whole-IsFraction m h = (h, o.le_refl m)

  within-IsFraction : (n m : F) → d.lt n d.zero ≡ false → d.lt m n ≡ false → IsFraction n m
  unfolding IsFraction
  within-IsFraction n m h k = (not_lt_le o n d.zero h, not_lt_le o m n k)

  restrict_s-t_n :
      (a value : F) (p : SegmentParameters F) (t_n : F)
      → ((restrict_s a value p t_n).t_n ≡ t_n) × ((restrict_s a value p t_n).t_d ≡ p.t_d)
  unfolding restrict_s
  restrict_s-t_n a value p t_n = elim (Bool-cases (d.lt value d.zero)) [
    | inl e ↦ rw e (refl, refl)
    | inr e ↦ elim (Bool-cases (d.lt a value)) [
      | inl e' ↦ rw (e, e') (refl, refl)
      | inr e' ↦ rw (e, e') (refl, refl)
    ]
  ]

  restrict_t-IsFraction :
      (a value : F) (p : SegmentParameters F) (t_n : F)
      → IsFraction t_n p.t_d
      → IsFraction (restrict_s a value p t_n).t_n (restrict_s a value p t_n).t_d
  restrict_t-IsFraction a value p t_n h = let (e, e') = restrict_s-t_n a value p t_n in rw (e, e') h

  clamp_t-IsFraction :
      (a b d' : F) (p : SegmentParameters F)
      → IsFraction p.s_n p.s_d
      → d.le d.zero p.t_d ≡ true
      → IsFraction (clamp_t a b d' p).s_n (clamp_t a b d' p).s_d
        × IsFraction (clamp_t a b d' p).t_n (clamp_t a b d' p).t_d
  unfolding clamp_t
  clamp_t-IsFraction a b d' p h k = elim (Bool-cases (d.lt p.t_n d.zero)) [
    | inl e ↦ rw e (
      restrict_s-IsFraction a (r.neg d') p d.zero h,
      restrict_t-IsFraction a (r.neg d') p d.zero (zero-IsFraction p.t_d k),
    )
    | inr e ↦ elim (Bool-cases (d.lt p.t_d p.t_n)) [
      | inl e' ↦
          rw (e, e')
            (
              restrict_s-IsFraction a (r.add (r.neg d') b) p p.t_d h,
              restrict_t-IsFraction a (r.add (r.neg d') b) p p.t_d (whole-IsFraction p.t_d k),
            )
      | inr e' ↦ rw (e, e') (h, within-IsFraction p.t_n p.t_d e e')
    ]
  ]

  -- The parameters that the distance of two segments divides are fractions: for any directions of
  -- the segments 0 <= s_n <= s_d and 0 <= t_n <= t_d, so that the closest points it takes are on the
  -- segments. The conditions are that no number is a NaN and that squares are not negative.
  pub segment_parameters-IsFraction :
      (u v w : Point F)
      → IsFraction (segment_parameters u v w).s_n (segment_parameters u v w).s_d
        × IsFraction (segment_parameters u v w).t_n (segment_parameters u v w).t_d
  unfolding segment_parameters
  segment_parameters-IsFraction u v w =
      let (h, k) =
        clamp_s-IsFraction (dot u u) (dot u v) (dot v v) (dot u w) (dot v w) (dot_nonneg v) in
      clamp_t-IsFraction (dot u u) (dot u v) (dot u w) _ h k
