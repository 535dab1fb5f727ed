-- ===== src/LookAhead/Tests.antt =====
-- Runs of look-ahead jobs on one segment of a robot.
use opera.Prelude.{ℕ, ◌+◌, ◌≡◌, refl, arith, List, [], ◌∷◌, false, Option, none, some, ok}
use opera.Prelude.Texts.{bytes, text_eq, text_lt}
use opera.Prelude.Millimetres.{Millimetres, mm, millimetres, whole_arithmetic}
use opera.Geometry.{point}
use opera.Mode.{Mode, equivalent, mode_eq, eq_loop, mode_lt}
use opera.ModeTrace.{ending_mode, starting_mode}
use opera.History.{samples_at, count_until}
use opera.Bodies.Sample.{BodySegmentSample}
use opera.RobotHistory.{RobotStateHistory, states_at}
use opera.RobotHistory.Snapshot.{samples}
use opera.LookAhead.{LookAheadJob, discard}
use opera.LookAhead.Searching.{segment_samples, bounds, discard_index}
use opera.LookAhead.Earliest.{IsFirst, discard_index-IsFirst}

abbrev rest : Mode
rest = (bytes "phase", bytes "rest") ∷ []

abbrev lift : Mode
lift = (bytes "phase", bytes "lift") ∷ []

-- A sample between two points, with no error.
abbrev between : ℕ → ℕ → BodySegmentSample Millimetres
between l u = record {
  segment = record { index = 0; head_id = bytes "a"; tail_id = bytes "b"; thickness = mm 1 };
  empty = false;
  head_bounds = record { xl = mm l; xu = mm l; yl = mm 2; yu = mm 2; zl = mm 2; zu = mm 2 };
  tail_bounds = record { xl = mm u; xu = mm u; yl = mm 2; yu = mm 2; zl = mm 2; zu = mm 2 };
  head_centre = point (mm l) (mm 2) (mm 2);
  tail_centre = point (mm u) (mm 2) (mm 2);
  radius = mm 0;
  bb = none;
  bs = none;
}

abbrev lifted : List (BodySegmentSample Millimetres)
lifted = between 2 4 ∷ between 20 24 ∷ []

abbrev history : RobotStateHistory Millimetres
history = record {
  mode_presences = record { mode = rest; exit_destination = lift; from = 0; to = 100 } ∷ [];
  mode_states = (lift, record { entries = (0, lifted ∷ []) ∷ [] }) ∷ [];
  latest_mode = lift;
  latest_time = 100;
  current_mode_states_buffer = [];
  mode_traces = (0, record { entries = []; next_modes = [] }) ∷ [];
  robot = record {
    body = record { id = bytes "arm"; keypoint_ids = []; segments = [] };
    message_frequency = 10;
  };
}

abbrev job : LookAheadJob Millimetres
job = record {
  id = record { human = bytes "h"; human_segment = 0; robot = bytes "arm"; robot_segment = 0 };
  initial_time = 50;
  snapshot_time = 50;
  human_sample = between 21 22;
  prediction_trace = record {
    entries =
        record { mode = rest; likelihood = mm 1 } ∷ record { mode = lift; likelihood = mm 1 } ∷ [];
    next_modes = [];
  };
  path = record { path = [] };
  kind = discard;
}

job-samples : segment_samples job history ≡ ok lifted
unfolding segment_samples ending_mode samples states_at equivalent mode_lt text_lt text_eq
    samples_at count_until
job-samples = refl

job-bounds : bounds job history 0 2 ≡ ok (some (0, 1))
unfolding bounds ending_mode starting_mode mode_eq eq_loop text_eq text_lt
job-bounds = refl

discard_index-IsFirst_example :
    (r : Option ℕ) × (discard_index job history ≡ ok r)
    × IsFirst job.human_sample lifted 0 (1 + 1) r
discard_index-IsFirst_example =
    discard_index-IsFirst job history lifted 0 1 job-samples job-bounds (omega arith)
