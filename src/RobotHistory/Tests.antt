-- ===== src/RobotHistory/Tests.antt =====
-- Runs of the robot history on a robot with one segment.
use opera.Prelude.{◌≡◌, refl, ◌≤◌, arith, [], ◌∷◌, not, Result, ok, err, undefined}
use opera.Prelude.Texts.{bytes, text_eq, text_lt}
use opera.Prelude.Millimetres.{Millimetres, mm, millimetres, whole_arithmetic}
use opera.Geometry.{point, fmin, fmax, hull, widen, circle_radius, is_empty, centre_of, make_empty}
use opera.Mode.{Mode, equivalent, mode_lt, mode_eq, mode_ne, eq_loop}
use opera.Mode
use opera.ModeTrace.{ModeTrace, Likelihoods, push_back, likelihood}
use opera.ModeTrace
use opera.History.{append, samples_at, size_at, count_until}
use opera.Bodies.{Robot, num_points, num_segments}
use opera.Bodies.Sample.{
  extend, update_head, update_tail, update_common, update_heads, update_tails, update_bounds,
  update_empty, create_empty, computed_box, computed_sphere, recalculate_box, recalculate_sphere,
  recalculate_radius_bounding_sets, update_head_centre, update_tail_centre, update,
}
use opera.RobotHistory.{
  RobotModePresence, RobotStateHistory, construct, has_key, state_of, set_state, empty_buffer,
  mode_at, remove_older_than, drop_left, drop_traces, reduce_traces,
}
use opera.RobotHistory.Snapshot.{unrounded_sample_index, sample_index, entrance, entry_time}
use opera.RobotHistory.Acquiring.{
  Points, points_at, pad_loop, push_last, pad_buffer, leave_mode, entered_buffer,
  entrance_timestamp, update_target, update_segment, update_loop, update_buffer, entered_traces,
  enter_mode, changes_mode, acquire,
}
use opera.RobotHistory.Tiling.{Tiled, EndBy, acquire-Tiled, mode_at-Tiled}
use opera.RobotHistory.Forgetting.{AllOlder, remove_older_than-undefined, mode_at-remove_older_than}

instance abbrev whole_likelihoods : Likelihoods Millimetres
whole_likelihoods = record {
  one = mm 1;
  mul = λ x y. whole_arithmetic.mul x y;
  ne = λ x y. not (millimetres.eq x y);
  add = λ x y. whole_arithmetic.add x y;
  div = λ x n. whole_arithmetic.div x (mm n);
}

abbrev arm : Robot Millimetres
arm = record {
  body = record {
    id = bytes "arm";
    keypoint_ids = bytes "a" ∷ bytes "b" ∷ [];
    segments =
        record { index = 0; head_id = bytes "a"; tail_id = bytes "b"; thickness = mm 2 } ∷ [];
  };
  message_frequency = 10;
}

abbrev rest : Mode
rest = (bytes "phase", bytes "rest") ∷ []

abbrev lift : Mode
lift = (bytes "phase", bytes "lift") ∷ []

abbrev ends : Points Millimetres
ends =
    (bytes "a", point (mm 2) (mm 2) (mm 2) ∷ []) ∷ (bytes "b", point (mm 4) (mm 2) (mm 2) ∷ []) ∷ []

abbrev value_of : {A : Type 0} → Result A → A → A
value_of (ok x) y = x
value_of (err e) y = y

abbrev start : RobotStateHistory Millimetres
start = construct arm

abbrev resting : RobotStateHistory Millimetres
resting = value_of (acquire start rest ends 100) start

resting-acquired : acquire start rest ends 100 ≡ ok resting
unfolding acquire changes_mode enter_mode entered_traces update_buffer update_loop update_segment
    update_target entered_buffer entrance_timestamp leave_mode pad_buffer push_last pad_loop
    points_at text_eq construct has_key empty_buffer num_points num_segments update update_bounds
    update_common update_heads update_tails update_head update_tail extend update_empty
    update_head_centre update_tail_centre recalculate_radius_bounding_sets recalculate_box
    recalculate_sphere computed_box computed_sphere centre_of is_empty circle_radius fmin fmax hull
    widen create_empty make_empty Mode.is_empty
resting-acquired = refl

abbrev lifting : RobotStateHistory Millimetres
lifting = value_of (acquire resting lift ends 300) start

lifting-acquired : acquire resting lift ends 300 ≡ ok lifting
unfolding acquire changes_mode enter_mode entered_traces update_buffer update_loop update_segment
    update_target entered_buffer entrance_timestamp leave_mode pad_buffer push_last pad_loop
    points_at text_eq construct has_key empty_buffer num_points num_segments update update_bounds
    update_common update_heads update_tails update_head update_tail extend update_empty
    update_head_centre update_tail_centre recalculate_radius_bounding_sets recalculate_box
    recalculate_sphere computed_box computed_sphere centre_of is_empty circle_radius fmin fmax hull
    widen create_empty make_empty Mode.is_empty unrounded_sample_index sample_index entrance
    entry_time mode_ne mode_eq eq_loop set_state state_of append push_back likelihood mode_lt
    equivalent text_lt samples_at size_at count_until ModeTrace.empty
lifting-acquired = refl

resting-Tiled : Tiled resting.mode_presences
unfolding acquire changes_mode enter_mode entered_traces update_buffer update_loop update_segment
    update_target entered_buffer entrance_timestamp leave_mode pad_buffer push_last pad_loop
    points_at text_eq construct has_key empty_buffer num_points num_segments update update_bounds
    update_common update_heads update_tails update_head update_tail extend update_empty
    update_head_centre update_tail_centre recalculate_radius_bounding_sets recalculate_box
    recalculate_sphere computed_box computed_sphere centre_of is_empty circle_radius fmin fmax hull
    widen create_empty make_empty Mode.is_empty Tiled
resting-Tiled = omega arith

resting-EndBy : EndBy resting.latest_time resting.mode_presences
unfolding acquire changes_mode enter_mode entered_traces update_buffer update_loop update_segment
    update_target entered_buffer entrance_timestamp leave_mode pad_buffer push_last pad_loop
    points_at text_eq construct has_key empty_buffer num_points num_segments update update_bounds
    update_common update_heads update_tails update_head update_tail extend update_empty
    update_head_centre update_tail_centre recalculate_radius_bounding_sets recalculate_box
    recalculate_sphere computed_box computed_sphere centre_of is_empty circle_radius fmin fmax hull
    widen create_empty make_empty Mode.is_empty
resting-EndBy = (omega arith, tt)

resting-time : resting.latest_time ≤ 300
unfolding acquire changes_mode enter_mode entered_traces update_buffer update_loop update_segment
    update_target entered_buffer entrance_timestamp leave_mode pad_buffer push_last pad_loop
    points_at text_eq construct has_key empty_buffer num_points num_segments update update_bounds
    update_common update_heads update_tails update_head update_tail extend update_empty
    update_head_centre update_tail_centre recalculate_radius_bounding_sets recalculate_box
    recalculate_sphere computed_box computed_sphere centre_of is_empty circle_radius fmin fmax hull
    widen create_empty make_empty Mode.is_empty
resting-time = omega arith

acquire-Tiled_example :
    Tiled lifting.mode_presences
    × EndBy lifting.latest_time lifting.mode_presences
    × (lifting.latest_time ≡ 300)
acquire-Tiled_example =
    acquire-Tiled resting lift ends 300 lifting resting-Tiled resting-EndBy resting-time
      lifting-acquired

abbrev in_rest : RobotModePresence
in_rest = record { mode = rest; exit_destination = lift; from = 100; to = 300 }

abbrev in_lift : RobotModePresence
in_lift = record { mode = lift; exit_destination = rest; from = 300; to = 500 }

abbrev seen : RobotStateHistory Millimetres
seen = record start {
  mode_presences = in_rest ∷ in_lift ∷ [];
  latest_mode = rest;
  latest_time = 500;
  mode_traces =
      (0, record { entries = []; next_modes = [] })
      ∷ (300, record { entries = record { mode = rest; likelihood = mm 1 } ∷ []; next_modes = [] })
      ∷ [];
}

seen-Tiled : Tiled seen.mode_presences
unfolding Tiled
seen-Tiled = (omega arith, refl, omega arith)

mode_at-Tiled_example : mode_at seen 350 ≡ lift
mode_at-Tiled_example =
    mode_at-Tiled seen (in_rest ∷ []) [] in_lift 350 refl seen-Tiled (omega arith) (omega arith)

seen-older : AllOlder 400 seen.mode_traces
unfolding AllOlder
seen-older = (omega arith, (omega arith, tt))

remove_older_than-undefined_example : remove_older_than seen 400 ≡ err undefined
remove_older_than-undefined_example = remove_older_than-undefined seen 400 (omega arith) seen-older

abbrev forgotten : RobotStateHistory Millimetres
forgotten = value_of (remove_older_than seen 200) start

seen-forgotten : remove_older_than seen 200 ≡ ok forgotten
unfolding remove_older_than drop_left drop_traces reduce_traces ModeTrace.reduce_between_indices
    ModeTrace.collect ModeTrace.size
seen-forgotten = refl

mode_at-remove_older_than_example : mode_at forgotten 250 ≡ mode_at seen 250
mode_at-remove_older_than_example =
    mode_at-remove_older_than seen 200 250 forgotten seen-forgotten (omega arith)
