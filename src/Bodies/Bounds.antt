-- ===== src/Bodies/Bounds.antt =====
-- The bounds of a sample after an update (src/body.cpp).
use opera.Prelude.{
  suc, ◌≡◌, refl, ◌∙◌, inl, inr, List, [], ◌∷◌, Bool, true, false, not, ◌&&◌, Bool-cases,
  Option-cases, arith, if◌then◌else◌, ok, length, min,
}
use opera.Prelude.Doubles.{Doubles, IsOrdered}
use opera.Prelude.Arithmetic.{Arithmetic}
use opera.Geometry.{Point, Box, fmin, fmax, is_empty, centre_of}
use opera.Geometry.Boxes.{contains, within, le-fmin, fmax-le, exchange, exchange_axes}
use opera.Bodies.Sample.{
  BodySegmentSample, extend, update_head, update_tail, update_common, update_heads, update_tails,
  update_bounds, update_empty, recalculate_box, recalculate_sphere,
  recalculate_radius_bounding_sets, update_head_centre, update_tail_centre, update,
}

module _ {F : Type 0} ⦃d : Doubles F⦄ where
  -- The box with all the points in turn.
  extend_all : Box F → List (Point F) → Box F
  extend_all b [] = b
  extend_all b (p ∷ ps) = extend_all (extend b p) ps

  -- The box contains all the points.
  unfoldable pub contains_all : Box F → List (Point F) → Bool
  contains_all b [] = true
  contains_all b (p ∷ ps) = contains b p && contains_all b ps

  -- The bounds of both ends after the loops.
  BoundsAre : BodySegmentSample F → Box F → Box F → Type 0
  BoundsAre s b c = (s.head_bounds ≡ b) × (s.tail_bounds ≡ c)

  update_heads-BoundsAre :
      (hs : List (Point F)) (s : BodySegmentSample F)
      → BoundsAre (update_heads hs s) (extend_all s.head_bounds hs) s.tail_bounds
  unfolding update_heads update_head extend_all BoundsAre
  update_heads-BoundsAre [] s = (refl, refl)
  update_heads-BoundsAre (h ∷ hs) s = update_heads-BoundsAre hs (update_head s h)

  update_tails-BoundsAre :
      (ts : List (Point F)) (s : BodySegmentSample F)
      → BoundsAre (update_tails ts s) s.head_bounds (extend_all s.tail_bounds ts)
  unfolding update_tails update_tail extend_all BoundsAre
  update_tails-BoundsAre [] s = (refl, refl)
  update_tails-BoundsAre (t ∷ ts) s = update_tails-BoundsAre ts (update_tail s t)

  update_bounds-BoundsAre :
      (hs ts : List (Point F)) (s : BodySegmentSample F)
      → BoundsAre
          (update_bounds hs ts s)
          (extend_all s.head_bounds hs)
          (extend_all s.tail_bounds ts)
  unfolding update_bounds update_common update_heads update_tails update_head update_tail extend_all
  update_bounds-BoundsAre [] ts s =
      let e : min 0 (length ts) ≡ 0 = omega arith in rw e (update_tails-BoundsAre ts s)
  update_bounds-BoundsAre (h ∷ hs) [] s =
      let e : min (suc (length hs)) 0 ≡ 0 = omega arith in rw e (update_heads-BoundsAre (h ∷ hs) s)
  update_bounds-BoundsAre (h ∷ hs) (t ∷ ts) s =
      let e : min (suc (length hs)) (suc (length ts)) ≡ suc (min (length hs) (length ts)) =
        omega arith in
      rw e (update_bounds-BoundsAre hs ts (update_tail (update_head s h) t))

  -- The second sample has the bounds of the first.
  SameBounds : BodySegmentSample F → BodySegmentSample F → Type 0
  SameBounds s t = BoundsAre t s.head_bounds s.tail_bounds

  update_empty-SameBounds : (s : BodySegmentSample F) → SameBounds s (update_empty s)
  unfolding update_empty SameBounds BoundsAre
  update_empty-SameBounds s =
      elim (Bool-cases
        (s.empty && (not (is_empty s.head_bounds) && not (is_empty s.tail_bounds)))) [
          | inl e ↦ rw e (refl, refl)
          | inr e ↦ rw e (refl, refl)
        ]

module _ {F : Type 0} ⦃d : Doubles F⦄ ⦃a : Arithmetic F⦄ where
  recalculate-SameBounds :
      (s : BodySegmentSample F) → SameBounds s (recalculate_radius_bounding_sets s)
  unfolding recalculate_radius_bounding_sets recalculate_box recalculate_sphere SameBounds BoundsAre
  recalculate-SameBounds s = elim (Option-cases s.bb) [
    | inl e ↦ elim (Option-cases s.bs) [
      | inl k ↦ rw (e, k) (refl, refl)
      | inr (c, k) ↦ rw (e, k) (refl, refl)
    ]
    | inr (b, e) ↦ elim (Option-cases s.bs) [
      | inl k ↦ rw (e, k) (refl, refl)
      | inr (c, k) ↦ rw (e, k) (refl, refl)
    ]
  ]

  centre_of-ok : (b : Box F) → is_empty b ≡ false → (c : Point F) × (centre_of b ≡ ok c)
  unfolding centre_of
  centre_of-ok b h = rw h (_, refl)

module _ {F : Type 0} ⦃d : Doubles F⦄ (o : IsOrdered d) where
  extend_side :
      (l u v v' w : F)
      → d.le l (fmin v w) && d.le (fmax v' w) u ≡ (d.le l v && d.le v' u) && (d.le l w && d.le w u)
  extend_side l u v v' w =
      rw (le-fmin o l v w, fmax-le o u v' w, exchange (d.le l v) (d.le v' u) (d.le l w) (d.le w u))
        refl

  within-extend : (c b : Box F) (p : Point F) → within (extend c p) b ≡ within c b && contains b p
  unfolding within extend contains
  within-extend c b p =
      rw
        (
          extend_side b.xl b.xu c.xl c.xu p.x,
          extend_side b.yl b.yu c.yl c.yu p.y,
          extend_side b.zl b.zu c.zl c.zu p.z,
        )
        (exchange_axes (d.le b.xl c.xl && d.le c.xu b.xu) (d.le b.xl p.x && d.le p.x b.xu)
          (d.le b.yl c.yl && d.le c.yu b.yu) (d.le b.yl p.y && d.le p.y b.yu)
          (d.le b.zl c.zl && d.le c.zu b.zu) (d.le b.zl p.z && d.le p.z b.zu))

  within-extend_all :
      (ps : List (Point F)) (c b : Box F)
      → within (extend_all c ps) b ≡ within c b && contains_all b ps
  unfolding extend_all contains_all
  within-extend_all [] c b = ground arith
  within-extend_all (p ∷ ps) c b =
      ground (arith, within-extend_all ps (extend c p) b, within-extend c b p)

  extend_axis : (l u w : F) → d.lt (fmax u w) (fmin l w) ≡ false
  unfolding fmax fmin
  extend_axis l u w = ground (
    arith,
    o.lt_not_le u w,
    o.lt_not_le w l,
    o.lt_not_le w w,
    o.lt_not_le u l,
    o.le_total u w,
    o.le_total w l,
    o.le_trans l w u,
    o.le_refl w,
  )

  extend-nonempty : (b : Box F) (p : Point F) → is_empty (extend b p) ≡ false
  unfolding is_empty extend
  extend-nonempty b p =
      rw (extend_axis b.xl b.xu p.x, extend_axis b.yl b.yu p.y, extend_axis b.zl b.zu p.z) refl

  extend_all-nonempty :
      (ps : List (Point F)) (b : Box F) → is_empty b ≡ false → is_empty (extend_all b ps) ≡ false
  unfolding extend_all
  extend_all-nonempty [] b h = h
  extend_all-nonempty (p ∷ ps) b h = extend_all-nonempty ps (extend b p) (extend-nonempty b p)

module _ {F : Type 0} ⦃d : Doubles F⦄ ⦃a : Arithmetic F⦄ (o : IsOrdered d) where
  update_head_centre-ok :
      (heads : List (Point F)) (b c : Box F) (s : BodySegmentSample F)
      → BoundsAre s (extend_all b heads) c
      → (r : BodySegmentSample F) × (update_head_centre heads s ≡ ok r)
        × BoundsAre r (extend_all b heads) c
  unfolding update_head_centre BoundsAre extend_all
  update_head_centre-ok [] b c s h = (s, refl, h)
  update_head_centre-ok (p ∷ ps) b c s h =
      let (q, e) =
        centre_of-ok s.head_bounds
          (rw (h.0) (extend_all-nonempty o ps (extend b p) (extend-nonempty o b p))) in
      (record s { head_centre = q }, rw e, h)

  update_tail_centre-ok :
      (tails : List (Point F)) (b c : Box F) (s : BodySegmentSample F)
      → BoundsAre s b (extend_all c tails)
      → (r : BodySegmentSample F) × (update_tail_centre tails s ≡ ok r)
        × BoundsAre r b (extend_all c tails)
  unfolding update_tail_centre BoundsAre extend_all
  update_tail_centre-ok [] b c s h = (s, refl, h)
  update_tail_centre-ok (p ∷ ps) b c s h =
      let (q, e) =
        centre_of-ok s.tail_bounds
          (rw (h.1) (extend_all-nonempty o ps (extend c p) (extend-nonempty o c p))) in
      (record s { tail_centre = q }, rw e, h)

  choose-BoundsAre :
      (z : Bool) (q r : BodySegmentSample F) (b c : Box F)
      → BoundsAre q b c
      → BoundsAre r b c
      → BoundsAre (if not z then r else q) b c
  choose-BoundsAre true q r b c h k = h
  choose-BoundsAre false q r b c h k = k

  finish-BoundsAre :
      (q : BodySegmentSample F) (b c : Box F)
      → BoundsAre q b c
      → BoundsAre (if not q.empty then recalculate_radius_bounding_sets q else q) b c
  unfolding BoundsAre SameBounds
  finish-BoundsAre q b c h =
      let (e, k) = recalculate-SameBounds q in
      choose-BoundsAre q.empty q (recalculate_radius_bounding_sets q) b c h (e ∙ h.0, k ∙ h.1)

  update-BoundsAre :
      (s : BodySegmentSample F) (heads tails : List (Point F))
      → (r : BodySegmentSample F) × (update s heads tails ≡ ok r)
        × BoundsAre r (extend_all s.head_bounds heads) (extend_all s.tail_bounds tails)
  unfolding update SameBounds BoundsAre
  update-BoundsAre s heads tails =
      let u : BodySegmentSample F = update_bounds heads tails s in
      let (h, k) = update_bounds-BoundsAre heads tails s in
      let (h', k') = update_empty-SameBounds u in
      let (r, e, m) =
        update_head_centre-ok heads s.head_bounds (extend_all s.tail_bounds tails) (update_empty u)
          (h' ∙ h, k' ∙ k) in
      let (q, e', m') =
        update_tail_centre-ok tails (extend_all s.head_bounds heads) s.tail_bounds r m in
      (
        (if not q.empty then recalculate_radius_bounding_sets q else q),
        rw (e, e') refl,
        finish-BoundsAre q _ _ m',
      )

  -- An update of a sample returns for any lists of heads and tails, and makes the bounds the least
  -- boxes that cover the former bounds and the new points: a box covers the bounds of the heads
  -- exactly if it covers the former bounds and contains all heads, and likewise for the tails. The
  -- condition is that no coordinate is a NaN.
  pub update-covers :
      (s : BodySegmentSample F) (heads tails : List (Point F))
      → (r : BodySegmentSample F) × (update s heads tails ≡ ok r)
        × ((b : Box F)
            → (within r.head_bounds b ≡ within s.head_bounds b && contains_all b heads)
              × (within r.tail_bounds b ≡ within s.tail_bounds b && contains_all b tails))
  unfolding BoundsAre
  update-covers s heads tails =
      let (r, e, m) = update-BoundsAre s heads tails in
      (
        r,
        e,
        λ b. (
          rw m.0 (within-extend_all o heads s.head_bounds b),
          rw m.1 (within-extend_all o tails s.tail_bounds b),
        ),
      )
