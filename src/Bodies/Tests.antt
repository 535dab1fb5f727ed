-- ===== src/Bodies/Tests.antt =====
-- Runs of bodies and samples on whole millimetres.
use opera.Prelude.{
  ◌≡◌, ◌≢◌, refl, List, [], ◌∷◌, true, false, ◌&&◌, ◌⊎◌, ok, err, assertion, none, some, length,
  All,
}
use opera.Prelude.Texts.{Text, bytes}
use opera.Prelude.Millimetres.{
  Millimetres, mm, millimetres, millimetres-IsOrdered, whole_arithmetic,
}
use opera.Geometry.{Point, Box, point, fmin, fmax, is_empty, centre_of, circle_radius, hull, widen}
use opera.Geometry.Boxes.{within}
use opera.Bodies.{BodySegment, Body, construct, num_segments}
use opera.Bodies.Sample.{
  BodySegmentSample, extend, update_head, update_tail, update_common, update_heads, update_tails,
  update_bounds, update_empty, create_empty, computed_box, computed_sphere, recalculate_box,
  recalculate_sphere, recalculate_radius_bounding_sets, update_head_centre, update_tail_centre,
  update, bounding_box, bounding_sphere,
}
use opera.Bodies.Keypoints.{distinct, Covered, construct-Covered}
use opera.Bodies.Bounds.{contains_all, update-covers}
use opera.Bodies.Cache.{update-IsCurrent}

abbrev pairs : List (Text × Text)
pairs = (bytes "shoulder", bytes "elbow") ∷ (bytes "elbow", bytes "wrist") ∷ []

abbrev thicknesses : List Millimetres
thicknesses = mm 10 ∷ mm 8 ∷ []

construct-Covered_example :
    ((b : Body Millimetres) × (construct (bytes "arm") pairs thicknesses ≡ ok b)
      × (length pairs ≡ length thicknesses)
      × (num_segments b ≡ length thicknesses)
      × (distinct b.keypoint_ids ≡ true)
      × All (Covered b.keypoint_ids) b.segments)
    ⊎ (construct (bytes "arm") pairs thicknesses ≡ err assertion)
      × (length pairs ≢ length thicknesses)
construct-Covered_example = construct-Covered (bytes "arm") pairs thicknesses

abbrev forearm : BodySegment Millimetres
forearm = record { index = 1; head_id = bytes "elbow"; tail_id = bytes "wrist"; thickness = mm 8 }

abbrev heads : List (Point Millimetres)
heads = point (mm 2) (mm 2) (mm 2) ∷ point (mm 4) (mm 2) (mm 2) ∷ []

abbrev tails : List (Point Millimetres)
tails = point (mm 9) (mm 2) (mm 2) ∷ []

update-covers_example :
    (r : BodySegmentSample Millimetres) × (update (create_empty forearm) heads tails ≡ ok r)
    × ((b : Box Millimetres)
        → (within r.head_bounds b
            ≡ within (create_empty forearm).head_bounds b && contains_all b heads)
          × (within r.tail_bounds b
              ≡ within (create_empty forearm).tail_bounds b && contains_all b tails))
update-covers_example = update-covers millimetres-IsOrdered (create_empty forearm) heads tails

abbrev known : BodySegmentSample Millimetres
known = record {
  segment = forearm;
  empty = false;
  head_bounds = record { xl = mm 2; xu = mm 4; yl = mm 2; yu = mm 2; zl = mm 2; zu = mm 2 };
  tail_bounds = record { xl = mm 9; xu = mm 9; yl = mm 2; yu = mm 2; zl = mm 2; zu = mm 2 };
  head_centre = point (mm 3) (mm 2) (mm 2);
  tail_centre = point (mm 9) (mm 2) (mm 2);
  radius = mm 1;
  bb = none;
  bs = none;
}

-- The sample again with its box, and then with another head.
abbrev boxed : BodySegmentSample Millimetres
boxed = record known {
  bb = some (record { xl = mm 0; xu = mm 0; yl = mm 0; yu = mm 0; zl = mm 0; zu = mm 0 });
}

abbrev moved : BodySegmentSample Millimetres
moved = record boxed {
  head_bounds = record { xl = mm 2; xu = mm 6; yl = mm 2; yu = mm 2; zl = mm 2; zu = mm 2 };
  head_centre = point (mm 4) (mm 2) (mm 2);
  radius = mm 2;
  bb = some (record { xl = mm 0; xu = mm 19; yl = mm 0; yu = mm 12; zl = mm 0; zu = mm 12 });
}

update-moved : update boxed (point (mm 6) (mm 2) (mm 2) ∷ []) [] ≡ ok moved
unfolding update update_bounds update_common update_heads update_tails update_head update_tail
    extend update_empty update_head_centre update_tail_centre recalculate_radius_bounding_sets
    recalculate_box recalculate_sphere computed_box computed_sphere centre_of is_empty circle_radius
    fmin fmax hull widen
update-moved = refl

update-IsCurrent_example :
    (moved.empty ≡ true)
    ⊎ ((bounding_box moved).0 ≡ computed_box moved)
      × ((bounding_sphere moved).0 ≡ computed_sphere moved)
update-IsCurrent_example =
    update-IsCurrent boxed (point (mm 6) (mm 2) (mm 2) ∷ []) [] moved update-moved
