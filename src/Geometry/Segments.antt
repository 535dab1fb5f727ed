-- ===== src/Geometry/Segments.antt =====
-- The distances between segments and points (src/geometry.cpp).
use opera.Prelude.{if◌then◌else◌}
use opera.Prelude.Doubles.{Doubles}
use opera.Prelude.Arithmetic.{Arithmetic}
use opera.Geometry.{Point, dot, minus, plus, scale}

-- sN, sD, tN and tD of the distance: the numerators and denominators of sc and tc.
pub record SegmentParameters (F : Type 0) : Type 0 where
  pub s_n : F
  pub s_d : F
  pub t_n : F
  pub t_d : F

module _ {F : Type 0} ⦃d : Doubles F⦄ ⦃r : Arithmetic F⦄ where
  -- The first block of conditions, on the infinite lines and on s.
  unfoldable pub clamp_s : F → F → F → F → F → SegmentParameters F
  clamp_s a b c d' e =
      let D = r.sub (r.mul a c) (r.mul b b) in
      let s_n = r.sub (r.mul b e) (r.mul c d') in
      if d.lt D r.small_value
      then record { s_n = d.zero; s_d = r.of_nat 1; t_n = e; t_d = c }
      else if d.lt s_n d.zero
      then record { s_n = d.zero; s_d = D; t_n = e; t_d = c }
      else if d.lt D s_n
      then record { s_n = D; s_d = D; t_n = r.add e b; t_d = c }
      else record { s_n = s_n; s_d = D; t_n = r.sub (r.mul a e) (r.mul b d'); t_d = D }

  -- s for a t that is fixed at an end, by the number that stands for sN there.
  unfoldable pub restrict_s : F → F → SegmentParameters F → F → SegmentParameters F
  restrict_s a value p t_n =
      if d.lt value d.zero
      then record p { s_n = d.zero; t_n = t_n }
      else if d.lt a value
      then record p { s_n = p.s_d; t_n = t_n }
      else record p { s_n = value; s_d = a; t_n = t_n }

  -- The second block of conditions, on t.
  unfoldable pub clamp_t : F → F → F → SegmentParameters F → SegmentParameters F
  clamp_t a b d' p =
      if d.lt p.t_n d.zero
      then restrict_s a (r.neg d') p d.zero
      else if d.lt p.t_d p.t_n
      then restrict_s a (r.add (r.neg d') b) p p.t_d
      else p

  unfoldable pub segment_parameters : Point F → Point F → Point F → SegmentParameters F
  segment_parameters u v w =
      clamp_t (dot u u) (dot u v) (dot u w)
        (clamp_s (dot u u) (dot u v) (dot v v) (dot u w) (dot v w))

  -- sc and tc
  unfoldable pub quotient : F → F → F
  quotient n m = if d.lt (r.abs n) r.small_value then d.zero else r.div n m

  -- `distance` of two segments
  unfoldable pub segment_segment_distance : Point F → Point F → Point F → Point F → F
  segment_segment_distance s1h s1t s2h s2t =
      let u = minus s1t s1h in
      let v = minus s2t s2h in
      let w = minus s1h s2h in
      let p = segment_parameters u v w in
      let dP = minus (plus w (scale (quotient p.s_n p.s_d) u)) (scale (quotient p.t_n p.t_d) v) in
      r.sqrt (dot dP dP)

  -- t_n of the distance of a point and a segment
  unfoldable pub clamp_projection : F → F → F
  clamp_projection e c = if d.lt e d.zero then d.zero else if d.lt c e then c else e

  -- `distance` of a point and a segment
  unfoldable pub point_segment_distance : Point F → Point F → Point F → F
  point_segment_distance p1 s2h s2t =
      let v = minus s2t s2h in
      let w = minus p1 s2h in
      let t_n = clamp_projection (dot v w) (dot v v) in
      let tc = if d.le r.small_value (r.abs t_n) then r.div t_n (dot v v) else d.zero in
      let dP = minus w (scale tc v) in r.sqrt (dot dP dP)

module _ {F : Type 0} ⦃r : Arithmetic F⦄ where
  -- `distance` of two points
  unfoldable pub point_distance : Point F → Point F → F
  point_distance p1 p2 = r.sqrt (dot (minus p1 p2) (minus p1 p2))
