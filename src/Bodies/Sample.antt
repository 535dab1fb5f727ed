-- ===== src/Bodies/Sample.antt =====
-- BodySegmentSample (include/body.hpp, src/body.cpp): bounds of the positions of a segment, with
-- the bounding sets that are computed when first asked for.
use opera.Prelude.{
  List, [], ◌∷◌, Bool, true, false, not, ◌&&◌, ◌||◌, ◌==◌, if◌then◌else◌, Option, none, some,
  Result, ok, ◌>>=◌, length, is_nil, drop, min,
}
use opera.Prelude.Doubles.{Doubles}
use opera.Prelude.Arithmetic.{Arithmetic}
use opera.Geometry.{
  Point, Box, Sphere, point, is_undefined, point_eq, midpoint, circle_radius, widen, fmin, fmax,
  hull, is_empty, disjoint, make_empty, centre_of,
}
use opera.Geometry.Segments.{segment_segment_distance, point_segment_distance, point_distance}
use opera.Bodies.{BodySegment}

pub record BodySegmentSample (F : Type 0) : Type 0 where
  pub segment : BodySegment F
  pub empty : Bool
  pub head_bounds : Box F
  pub tail_bounds : Box F
  pub head_centre : Point F
  pub tail_centre : Point F
  pub radius : F
  -- The pointers _bb and _bs.
  pub bb : Option (Box F)
  pub bs : Option (Sphere F)

module _ {F : Type 0} ⦃d : Doubles F⦄ where
  unfoldable pub extend : Box F → Point F → Box F
  extend b p = record {
    xl = fmin b.xl p.x;
    xu = fmax b.xu p.x;
    yl = fmin b.yl p.y;
    yu = fmax b.yu p.y;
    zl = fmin b.zl p.z;
    zu = fmax b.zu p.z;
  }

  unfoldable pub update_head : BodySegmentSample F → Point F → BodySegmentSample F
  update_head s head = record s { head_bounds = extend s.head_bounds head }

  unfoldable pub update_tail : BodySegmentSample F → Point F → BodySegmentSample F
  update_tail s tail = record s { tail_bounds = extend s.tail_bounds tail }

  -- The three loops of `update`.
  unfoldable pub update_common :
      List (Point F) → List (Point F) → BodySegmentSample F → BodySegmentSample F
  update_common [] tails s = s
  update_common (h ∷ hs) [] s = s
  update_common (h ∷ hs) (t ∷ ts) s = update_common hs ts (update_tail (update_head s h) t)

  unfoldable pub update_heads : List (Point F) → BodySegmentSample F → BodySegmentSample F
  update_heads [] s = s
  update_heads (h ∷ hs) s = update_heads hs (update_head s h)

  unfoldable pub update_tails : List (Point F) → BodySegmentSample F → BodySegmentSample F
  update_tails [] s = s
  update_tails (t ∷ ts) s = update_tails ts (update_tail s t)

  unfoldable pub update_bounds :
      List (Point F) → List (Point F) → BodySegmentSample F → BodySegmentSample F
  update_bounds heads tails s =
      let common_size = min (length heads) (length tails) in
      update_tails (drop common_size tails)
        (update_heads (drop common_size heads) (update_common heads tails s))

  unfoldable pub update_empty : BodySegmentSample F → BodySegmentSample F
  update_empty s =
      if s.empty && (not (is_empty s.head_bounds) && not (is_empty s.tail_bounds))
      then record s { empty = false }
      else s

module _ {F : Type 0} ⦃d : Doubles F⦄ ⦃a : Arithmetic F⦄ where
  -- The constructor of an empty sample.
  unfoldable pub create_empty : BodySegment F → BodySegmentSample F
  create_empty segment = record {
    segment = segment;
    empty = true;
    head_bounds = make_empty;
    tail_bounds = make_empty;
    head_centre = point a.nan a.nan a.nan;
    tail_centre = point a.nan a.nan a.nan;
    radius = d.zero;
    bb = none;
    bs = none;
  }

  -- What the bounding sets are computed as.
  unfoldable pub computed_box : BodySegmentSample F → Box F
  computed_box s = widen (hull s.head_centre s.tail_centre) (a.add s.radius s.segment.thickness)

  unfoldable pub computed_sphere : BodySegmentSample F → Sphere F
  computed_sphere s = record {
    centre = midpoint s.head_centre s.tail_centre;
    radius =
        a.add (a.add (a.div (point_distance s.head_centre s.tail_centre) (a.of_nat 2)) s.radius)
          s.segment.thickness;
  }

  unfoldable pub recalculate_box : BodySegmentSample F → BodySegmentSample F
  recalculate_box s = elim s.bb [ none ↦ s | some b ↦ record s { bb = some (computed_box s) } ]

  unfoldable pub recalculate_sphere : BodySegmentSample F → BodySegmentSample F
  recalculate_sphere s = elim s.bs [
    | none ↦ s
    | some b ↦ record s { bs = some (computed_sphere s) }
  ]

  unfoldable pub recalculate_radius_bounding_sets : BodySegmentSample F → BodySegmentSample F
  recalculate_radius_bounding_sets s = recalculate_sphere (
      recalculate_box
        (record s { radius = fmax (circle_radius s.head_bounds) (circle_radius s.tail_bounds) }))

  unfoldable pub update_head_centre :
      List (Point F) → BodySegmentSample F → Result (BodySegmentSample F)
  update_head_centre heads s =
      if not (is_nil heads)
      then (centre_of s.head_bounds >>= λ c. ok (record s { head_centre = c }))
      else ok s

  unfoldable pub update_tail_centre :
      List (Point F) → BodySegmentSample F → Result (BodySegmentSample F)
  update_tail_centre tails s =
      if not (is_nil tails)
      then (centre_of s.tail_bounds >>= λ c. ok (record s { tail_centre = c }))
      else ok s

  unfoldable pub update :
      BodySegmentSample F → List (Point F) → List (Point F) → Result (BodySegmentSample F)
  update s heads tails = do
    r ← update_head_centre heads (update_empty (update_bounds heads tails s))
    q ← update_tail_centre tails r
    ok (if not q.empty then recalculate_radius_bounding_sets q else q)

  unfoldable pub create_sample :
      BodySegment F → List (Point F) → List (Point F) → Result (BodySegmentSample F)
  create_sample segment begin end = update (create_empty segment) begin end

  -- The box, and the sample that holds it from then on.
  unfoldable pub bounding_box : BodySegmentSample F → Box F × BodySegmentSample F
  bounding_box s = elim s.bb [
    | none ↦ (computed_box s, record s { bb = some (computed_box s) })
    | some b ↦ (b, s)
  ]

  unfoldable pub bounding_sphere : BodySegmentSample F → Sphere F × BodySegmentSample F
  bounding_sphere s = elim s.bs [
    | none ↦ (computed_sphere s, record s { bs = some (computed_sphere s) })
    | some b ↦ (b, s)
  ]

  unfoldable pub segment_distance : BodySegmentSample F → BodySegmentSample F → F
  segment_distance s1 s2 =
      segment_segment_distance s1.head_centre s1.tail_centre s2.head_centre s2.tail_centre

  -- The answer, of two samples that are two objects, and both with their boxes.
  unfoldable pub intersects :
      BodySegmentSample F → BodySegmentSample F → Bool × (BodySegmentSample F × BodySegmentSample F)
  intersects s other =
      let first = bounding_box s in
      let second = bounding_box other in
      (
        (if disjoint first.0 second.0
            then false
            else d.le (segment_distance s other) (
                a.add (a.add (a.add s.segment.thickness s.radius) other.segment.thickness)
                  other.radius)),
        (first.1, second.1),
      )

  -- a != b of two centres, one of which may be undefined
  unfoldable pub centre_ne : Point F → Point F → Bool
  centre_ne p q =
      if is_undefined p || is_undefined q
      then (is_undefined p && not (is_undefined q)) || (not (is_undefined p) && is_undefined q)
      else not (point_eq p q)

  unfoldable pub sample_ne : BodySegmentSample F → BodySegmentSample F → Bool
  sample_ne first second =
      if not (first.segment.index == second.segment.index)
      then true
      else if not (d.eq first.radius second.radius)
      then true
      else if not (d.eq first.segment.thickness second.segment.thickness)
      then true
      else if centre_ne first.head_centre second.head_centre
      then true
      else if centre_ne first.tail_centre second.tail_centre
      then true
      else false

  unfoldable pub sample_eq : BodySegmentSample F → BodySegmentSample F → Bool
  sample_eq first second = not (sample_ne first second)

  unfoldable pub sphere_capsule_distance : Sphere F → BodySegmentSample F → F
  sphere_capsule_distance sample other = fmax d.zero (
      a.sub
        (a.sub
          (a.sub (point_segment_distance sample.centre other.head_centre other.tail_centre)
            other.radius)
          other.segment.thickness)
        sample.radius)
