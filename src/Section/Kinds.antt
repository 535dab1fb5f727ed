-- ===== src/Section/Kinds.antt =====
-- The distances of the two kinds of sections (src/barrier.cpp), on the samples of body segments.
use opera.Prelude.{if◌then◌else◌}
use opera.Prelude.Doubles.{Doubles}
use opera.Prelude.Arithmetic.{Arithmetic}
use opera.Geometry.{fmax}
use opera.Geometry.Segments.{point_segment_distance, point_distance}
use opera.Bodies.Sample.{
  BodySegmentSample, bounding_sphere, segment_distance, sphere_capsule_distance,
}
use opera.Section.{SectionKind}

module _ {F : Type 0} ⦃d : Doubles F⦄ ⦃a : Arithmetic F⦄ where
  unfoldable pub sphere_human_human_distance : BodySegmentSample F → BodySegmentSample F → F
  sphere_human_human_distance reference other =
      let first = (bounding_sphere reference).0 in
      let second = (bounding_sphere other).0 in
      fmax d.zero
        (a.sub (a.add (point_distance first.centre second.centre) second.radius) first.radius)

  unfoldable pub sphere_human_robot_distance : BodySegmentSample F → BodySegmentSample F → F
  sphere_human_robot_distance human_sample robot_sample =
      sphere_capsule_distance (bounding_sphere human_sample).0 robot_sample

  unfoldable pub capsule_human_human_distance : BodySegmentSample F → BodySegmentSample F → F
  capsule_human_human_distance reference other = fmax d.zero (
      a.sub
        (a.sub
          (a.add
            (a.add
              (fmax
                (point_segment_distance other.head_centre reference.head_centre
                  reference.tail_centre)
                (point_segment_distance other.tail_centre reference.head_centre
                  reference.tail_centre))
              other.segment.thickness)
            other.radius)
          reference.segment.thickness)
        reference.radius)

  unfoldable pub capsule_human_robot_distance : BodySegmentSample F → BodySegmentSample F → F
  capsule_human_robot_distance human_sample robot_sample =
      let distance = segment_distance human_sample robot_sample in
      let epsilon =
        a.add (a.add (a.add human_sample.radius human_sample.segment.thickness) robot_sample.radius)
          robot_sample.segment.thickness in
      if d.le distance epsilon then d.zero else a.sub distance epsilon

  abbrev pub sphere_kind : SectionKind (BodySegmentSample F) F
  sphere_kind = record {
    maximum_human_human_distance = sphere_human_human_distance;
    minimum_human_robot_distance = sphere_human_robot_distance;
  }

  abbrev pub capsule_kind : SectionKind (BodySegmentSample F) F
  capsule_kind = record {
    maximum_human_human_distance = capsule_human_human_distance;
    minimum_human_robot_distance = capsule_human_robot_distance;
  }
