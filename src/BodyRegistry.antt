-- ===== src/BodyRegistry.antt =====
-- BodyRegistry (include/body_registry.hpp, src/body_registry.cpp): the bodies that were presented,
-- with their histories. A std::map from identifiers is an association list in their order.
pub mod Contents
mod Tests
use opera.Prelude.{
  ℕ, zero, suc, ◌+◌, ◌-◌, ◌*◌, List, [], ◌∷◌, ◌++◌, Bool, true, false, not, ◌||◌, ltb, ◌==◌,
  if◌then◌else◌, Result, ok, err, out_of_range, runtime_error, require, ◌>>=◌, ◌>>◌, length, at,
}
use opera.Prelude.Doubles.{Doubles}
use opera.Prelude.Arithmetic.{Arithmetic}
use opera.Prelude.Maps.{has_key, value_at, insert_key, erase, assign, keys}
use opera.Prelude.Texts.{Text, text_eq, text_lt}
use opera.Geometry.{Point}
use opera.Mode.{Mode}
use opera.ModeTrace.{Likelihoods}
use opera.History.{HumanStateInstance, HumanStateHistory}
use opera.History
use opera.Bodies.{Body, Robot, BodySegment, construct, construct_robot, num_segments}
use opera.Bodies
use opera.Bodies.Sample.{BodySegmentSample, create_sample}
use opera.RobotHistory.{RobotStateHistory}
use opera.RobotHistory
use opera.RobotHistory.Acquiring.{Points}
use opera.RobotHistory.Acquiring

-- BodyPresentationMessage, HumanStateMessage and RobotStateMessage
pub record BodyPresentationMessage (F : Type 0) : Type 0 where
  pub id : Text
  pub is_human : Bool
  pub message_frequency : ℕ
  pub segment_pairs : List (Text × Text)
  pub thicknesses : List F

pub record HumanStateMessage (F : Type 0) : Type 0 where
  pub bodies : List (Text × Points F)
  pub timestamp : ℕ

pub record RobotStateMessage (F : Type 0) : Type 0 where
  pub id : Text
  pub mode : Mode
  pub points : List (List (Point F))
  pub timestamp : ℕ

abbrev pub HumanHistory : Type 0 → Type 0
HumanHistory F = HumanStateHistory (BodySegmentSample F)

pub record HumanRegistryEntry (F : Type 0) : Type 0 where
  pub body : Body F
  pub history : HumanHistory F

pub record RobotRegistryEntry (F : Type 0) : Type 0 where
  pub body : Robot F
  pub history : RobotStateHistory F

pub record BodyRegistry (F : Type 0) : Type 0 where
  pub humans : List (Text × HumanRegistryEntry F)
  pub robots : List (Text × RobotRegistryEntry F)

module _ {F : Type 0} where
  unfoldable pub contains : BodyRegistry F → Text → Bool
  contains r id = has_key r.humans id || has_key r.robots id

  unfoldable pub num_robots : BodyRegistry F → ℕ
  num_robots r = length r.robots

  unfoldable pub num_humans : BodyRegistry F → ℕ
  num_humans r = length r.humans

  unfoldable pub robot_segments : List (Text × RobotRegistryEntry F) → ℕ
  robot_segments [] = 0
  robot_segments ((k, e) ∷ es) = num_segments e.body.body + robot_segments es

  unfoldable pub human_segments : List (Text × HumanRegistryEntry F) → ℕ
  human_segments [] = 0
  human_segments ((k, e) ∷ es) = num_segments e.body + human_segments es

  unfoldable pub num_segment_pairs : BodyRegistry F → ℕ
  num_segment_pairs r = human_segments r.humans * robot_segments r.robots

  unfoldable pub robot_ids : BodyRegistry F → List Text
  robot_ids r = keys r.robots

  unfoldable pub human_ids : BodyRegistry F → List Text
  human_ids r = keys r.humans

  -- `_robots.at(id)` and `_humans.at(id)` behind the precondition of the methods.
  unfoldable pub robot_entry : BodyRegistry F → Text → Result (RobotRegistryEntry F)
  robot_entry r id = do require (contains r id); value_at r.robots id

  unfoldable pub human_entry : BodyRegistry F → Text → Result (HumanRegistryEntry F)
  human_entry r id = do require (contains r id); value_at r.humans id

  unfoldable pub robot : BodyRegistry F → Text → Result (Robot F)
  robot r id = robot_entry r id >>= λ e. ok e.body

  unfoldable pub human : BodyRegistry F → Text → Result (Body F)
  human r id = human_entry r id >>= λ e. ok e.body

  unfoldable pub robot_history : BodyRegistry F → Text → Result (RobotStateHistory F)
  robot_history r id = robot_entry r id >>= λ e. ok e.history

  unfoldable pub human_history : BodyRegistry F → Text → Result (HumanHistory F)
  human_history r id = human_entry r id >>= λ e. ok e.history

  unfoldable pub human_history_size : BodyRegistry F → Text → Result ℕ
  human_history_size r id = human_history r id >>= λ h. ok (History.size h)

  unfoldable pub has_human_instances_within : BodyRegistry F → Text → ℕ → Result Bool
  has_human_instances_within r id timestamp =
      human_history r id >>= λ h. ok (History.has_instances_within h timestamp)

  unfoldable pub latest_human_instance_within :
      BodyRegistry F → Text → ℕ → Result (HumanStateInstance (BodySegmentSample F))
  latest_human_instance_within r id timestamp =
      value_at r.humans id >>= λ e. History.latest_within e.history timestamp

  unfoldable pub latest_timestamp : HumanHistory F → Result ℕ
  latest_timestamp h = do
    require (ltb 0 (History.size h))
    i ← History.at_index h (History.size h - 1)
    ok i.timestamp

  unfoldable pub latest_human_timestamp : BodyRegistry F → Text → Result ℕ
  latest_human_timestamp r id = human_history r id >>= λ h. latest_timestamp h

  unfoldable pub instance_distance : BodyRegistry F → Text → ℕ → ℕ → Result ℕ
  instance_distance r id lower upper =
      value_at r.humans id >>= λ e. History.instance_distance e.history lower upper

  unfoldable pub instance_number : BodyRegistry F → Text → ℕ → Result ℕ
  instance_number r id timestamp =
      value_at r.humans id >>= λ e. History.instance_number e.history timestamp

  unfoldable pub instance_at :
      BodyRegistry F → Text → ℕ → Result (HumanStateInstance (BodySegmentSample F))
  instance_at r id idx = value_at r.humans id >>= λ e. History.at_index e.history idx

  -- The evaluation of the entry comes before the insertion, which keeps an entry that is there.
  unfoldable pub insert_human :
      BodyRegistry F → Text → List (Text × Text) → List F → Result (BodyRegistry F)
  insert_human r id segment_pairs thicknesses = do
    body ← construct id segment_pairs thicknesses
    ok (record r {
      humans = insert_key r.humans id (record { body = body; history = record { instances = [] } });
    })

  unfoldable pub insert_robot :
      BodyRegistry F → Text → ℕ → List (Text × Text) → List F → Result (BodyRegistry F)
  insert_robot r id message_frequency segment_pairs thicknesses = do
    body ← construct_robot id message_frequency segment_pairs thicknesses
    ok (record r {
      robots =
          insert_key r.robots id (record { body = body; history = RobotHistory.construct body });
    })

  unfoldable pub insert : BodyRegistry F → BodyPresentationMessage F → Result (BodyRegistry F)
  insert r presentation =
      if not (contains r presentation.id)
      then (if presentation.is_human
          then insert_human r presentation.id presentation.segment_pairs presentation.thicknesses
          else insert_robot r presentation.id presentation.message_frequency
              presentation.segment_pairs presentation.thicknesses)
      else ok r

  unfoldable pub get_human_keypoint_ids : BodyRegistry F → Text → ℕ → Result (Bool × (Text × Text))
  get_human_keypoint_ids r human_id segment_id =
      if has_key r.humans human_id
      then (value_at r.humans human_id >>= λ e.
          Bodies.segment e.body segment_id >>= λ s. ok (true, (s.head_id, s.tail_id)))
      else ok (false, ([], []))

  unfoldable pub has_human : BodyRegistry F → Text → Bool
  has_human r id = has_key r.humans id

  unfoldable pub has_robot : BodyRegistry F → Text → Bool
  has_robot r id = has_key r.robots id

  unfoldable pub remove : BodyRegistry F → Text → Result (BodyRegistry F)
  remove r id =
      if has_key r.humans id
      then ok (record r { humans = erase r.humans id })
      else if has_key r.robots id
      then ok (record r { robots = erase r.robots id })
      else err runtime_error

  unfoldable pub clear : BodyRegistry F → BodyRegistry F
  clear r = record { humans = []; robots = [] }

  -- Map::find, with an empty list for no points.
  unfoldable pub points_of : Points F → Text → List (Point F)
  points_of [] id = []
  points_of ((k, ps) ∷ rest) id = if text_eq k id then ps else points_of rest id

module _ {F : Type 0} ⦃d : Doubles F⦄ ⦃a : Arithmetic F⦄ where
  -- The loop of the constructor of HumanStateInstance.
  unfoldable pub instance_samples :
      List (BodySegment F) → Points F → Result (List (BodySegmentSample F))
  instance_samples [] points = ok []
  instance_samples (s ∷ ss) points = do
    sample ← create_sample s (points_of points s.head_id) (points_of points s.tail_id)
    samples ← instance_samples ss points
    ok (sample ∷ samples)

  unfoldable pub add_human_instance : BodyRegistry F → Text → Points F → ℕ → Result (BodyRegistry F)
  add_human_instance r id points timestamp = do
    e ← human_entry r id
    newer ←
        if History.size e.history == 0
        then ok true
        else (latest_human_timestamp r id >>= λ latest. ok (ltb latest timestamp))
    if newer
        then (instance_samples e.body.segments points >>= λ samples. ok (record r {
          humans =
              assign r.humans id
                (record e { history = History.acquire e.history samples timestamp });
        }))
        else ok r

  unfoldable pub acquire_bodies :
      BodyRegistry F → List (Text × Points F) → ℕ → Result (BodyRegistry F)
  acquire_bodies r [] timestamp = ok r
  acquire_bodies r ((id, points) ∷ bodies) timestamp =
      add_human_instance r id points timestamp >>= λ r'. acquire_bodies r' bodies timestamp

  unfoldable pub acquire_human_state :
      BodyRegistry F → HumanStateMessage F → Result (BodyRegistry F)
  acquire_human_state r msg = acquire_bodies r msg.bodies msg.timestamp

module _ {F : Type 0} ⦃d : Doubles F⦄ ⦃a : Arithmetic F⦄ ⦃l : Likelihoods F⦄ where
  -- The points by their indexes, written by `to_string`, a parameter.
  unfoldable pub indexed_points : (ℕ → Text) → List (List (Point F)) → ℕ → Points F → Points F
  indexed_points to_string [] i points = points
  indexed_points to_string (ps ∷ rest) i points =
      indexed_points to_string rest (i + 1) (insert_key points (to_string i) ps)

  unfoldable pub acquire_robot_state :
      (ℕ → Text) → BodyRegistry F → RobotStateMessage F → Result (BodyRegistry F)
  acquire_robot_state to_string r msg = do
    e ← robot_entry r msg.id
    history ←
        Acquiring.acquire e.history msg.mode (indexed_points to_string msg.points 0 [])
          msg.timestamp
    ok (record r { robots = assign r.robots msg.id (record e { history = history }) })
