-- ===== src/Bodies.antt =====
-- Bodies and the samples of their segments (include/body.hpp, src/body.cpp). A segment's pointer to
-- its body, which only the printing reads, is left out.
pub mod Sample
pub mod Keypoints
pub mod Bounds
pub mod Cache
mod Tests
use opera.Prelude.{
  ℕ, zero, suc, ◌+◌, ◌%◌, ◌^◌, List, [], ◌∷◌, ◌++◌, Bool, true, false, not, ltb, ◌==◌, ◌||◌,
  if◌then◌else◌, Result, ok, err, assertion, assert, ◌>>=◌, ◌>>◌, length, at,
}
use opera.Prelude.Texts.{Text, text_eq}

pub record BodySegment (F : Type 0) : Type 0 where
  pub index : ℕ
  pub head_id : Text
  pub tail_id : Text
  pub thickness : F

pub record Body (F : Type 0) : Type 0 where
  pub id : Text
  pub keypoint_ids : List Text
  pub segments : List (BodySegment F)

pub record Robot (F : Type 0) : Type 0 where
  pub body : Body F
  pub message_frequency : ℕ

-- Set::contains
unfoldable pub contains_id : List Text → Text → Bool
contains_id [] k = false
contains_id (j ∷ js) k = text_eq j k || contains_id js k

-- The identifier goes into the set and the list, which hold the same ones.
unfoldable pub insert_id : List Text → Text → List Text
insert_id ids k = if contains_id ids k then ids else ids ++ k ∷ []

module _ {F : Type 0} where
  -- The loop of the constructor, over the thicknesses from the index on.
  unfoldable pub construct_loop :
      List F
      → ℕ
      → List (Text × Text)
      → List Text
      → List (BodySegment F)
      → Result (List Text × List (BodySegment F))
  construct_loop [] i points_ids ids segments = ok (ids, segments)
  construct_loop (thickness ∷ ts) i points_ids ids segments =
      at points_ids i >>= λ (p : Text × Text).
      construct_loop ts (i + 1) points_ids (insert_id (insert_id ids p.0) p.1) (
        segments
        ++ record { index = i % 2 ^ 32; head_id = p.0; tail_id = p.1; thickness = thickness } ∷ [])

  -- Body::Body and Human::Human
  unfoldable pub construct : Text → List (Text × Text) → List F → Result (Body F)
  construct id points_ids thicknesses = do
    assert (length points_ids == length thicknesses)
    r ← construct_loop thicknesses 0 points_ids [] []
    ok (record { id = id; keypoint_ids = r.0; segments = r.1 })

  unfoldable pub construct_robot : Text → ℕ → List (Text × Text) → List F → Result (Robot F)
  construct_robot id message_frequency points_ids thicknesses = do
    body ← construct id points_ids thicknesses
    assert (ltb 0 message_frequency)
    ok (record { body = body; message_frequency = message_frequency })

  unfoldable pub copy_segments : List (BodySegment F) → List (BodySegment F)
  copy_segments [] = []
  copy_segments (s ∷ ss) =
      record { index = s.index; head_id = s.head_id; tail_id = s.tail_id; thickness = s.thickness }
      ∷ copy_segments ss

  -- The copy constructor.
  unfoldable pub copy : Body F → Body F
  copy other = record {
    id = other.id;
    keypoint_ids = other.keypoint_ids;
    segments = copy_segments other.segments;
  }

  unfoldable pub segment : Body F → ℕ → Result (BodySegment F)
  segment b idx = at b.segments idx

  unfoldable pub num_segments : Body F → ℕ
  num_segments b = length b.segments

  unfoldable pub num_points : Body F → ℕ
  num_points b = length b.keypoint_ids
