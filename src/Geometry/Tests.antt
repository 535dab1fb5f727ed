-- ===== src/Geometry/Tests.antt =====
-- Runs of the geometry on whole millimetres.
use opera.Prelude.{◌≡◌, refl, true, false, ◌&&◌, ◌⊎◌}
use opera.Prelude.Millimetres.{
  Millimetres, mm, millimetres, millimetres-IsOrdered, whole_arithmetic, whole-IsPositive,
}
use opera.Geometry.{Point, Box, point, dot, minus, is_empty, disjoint}
use opera.Geometry.Boxes.{contains, disjoint-decides}
use opera.Geometry.Segments.{segment_parameters, point_distance}
use opera.Geometry.Parameters.{IsFraction, segment_parameters-IsFraction}

abbrev origin : Point Millimetres
origin = point (mm 0) (mm 0) (mm 0)

abbrev elbow : Point Millimetres
elbow = point (mm 3) (mm 4) (mm 0)

abbrev far : Point Millimetres
far = point (mm 9) (mm 9) (mm 9)

abbrev arm : Box Millimetres
arm = record { xl = mm 0; xu = mm 3; yl = mm 0; yu = mm 4; zl = mm 0; zu = mm 0 }

abbrev away : Box Millimetres
away = record { xl = mm 5; xu = mm 9; yl = mm 2; yu = mm 4; zl = mm 0; zu = mm 1 }

arm-filled : is_empty arm ≡ false
unfolding is_empty
arm-filled = refl

away-filled : is_empty away ≡ false
unfolding is_empty
away-filled = refl

disjoint-decides_example :
    (disjoint arm away ≡ true)
      × ((p : Point Millimetres) → contains arm p && contains away p ≡ false)
    ⊎ (disjoint arm away ≡ false)
      × ((p : Point Millimetres) × (contains arm p && contains away p ≡ true))
disjoint-decides_example = disjoint-decides millimetres-IsOrdered arm away arm-filled away-filled

disjoint_apart : disjoint arm away ≡ true
unfolding disjoint
disjoint_apart = refl

distance_elbow : point_distance elbow origin ≡ mm 5
unfolding point_distance dot minus
distance_elbow = refl

segment_parameters-IsFraction_example :
    IsFraction (segment_parameters elbow far origin).s_n (segment_parameters elbow far origin).s_d
    × IsFraction (segment_parameters elbow far origin).t_n (segment_parameters elbow far origin).t_d
segment_parameters-IsFraction_example =
    segment_parameters-IsFraction millimetres-IsOrdered whole-IsPositive elbow far origin
