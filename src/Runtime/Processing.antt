-- ===== src/Runtime/Processing.antt =====
-- `_process_one_working_job` of the runtime (src/runtime.cpp). The receiver's state has the registry
-- and both queues. The notifications are those that were put into the sender. `std::round` is a
-- parameter; logging is left out, and what a thread does with a job is one step.
use opera.Prelude.{
  ℕ, ◌+◌, ◌*◌, List, [], ◌∷◌, ◌++◌, Bool, true, false, not, ltb, leb, ◌==◌, if◌then◌else◌, Option,
  none, some, Result, ok, err, precondition, ◌>>=◌, drop, drop_last, is_nil,
}
use opera.Prelude.Doubles.{Doubles}
use opera.Prelude.Arithmetic.{Arithmetic}
use opera.Prelude.Texts.{Text}
use opera.Barrier.{sub64}
use opera.Intervals.{Interval, singleton, subtract_scalar, add_scalar, add_interval}
use opera.Intervals
use opera.Mode.{Mode}
use opera.ModeTrace.{ModeTrace, ModeTraceEntry, Likelihoods, starting_mode, ending_mode, likelihood}
use opera.ModeTrace
use opera.JobPath
use opera.Bodies
use opera.RobotHistory.{RobotStateHistory}
use opera.RobotHistory.Snapshot.{checked_sample_index, range_of_num_samples_in}
use opera.LookAhead.{LookAheadJob}
use opera.LookAhead.Searching.{earliest_collision_index}
use opera.LookAhead.Factories.{factory_has_registered, create_next_jobs}
use opera.BodyRegistry.{robot_history, get_human_keypoint_ids, has_human}
use opera.BodyRegistry
use opera.Receiver.{RuntimeReceiver}

pub record CollisionNotificationMessage (F : Type 0) : Type 0 where
  pub human_id : Text
  pub human_segment : Text × Text
  pub robot_id : Text
  pub robot_segment : Text × Text
  pub current_time : ℕ
  pub collision_distance : Interval ℕ
  pub collision_mode : Mode
  pub likelihood : F

pub record Runtime (F : Type 0) : Type 0 where
  pub receiver : RuntimeReceiver F
  pub notifications : List (CollisionNotificationMessage F)
  pub num_processed : ℕ
  pub num_completed : ℕ
  pub num_collisions : ℕ

module _ {F : Type 0} ⦃d : Doubles F⦄ ⦃a : Arithmetic F⦄ ⦃l : Likelihoods F⦄ (round : F → ℕ) where
  -- The loop over the modes between the first and the last one.
  unfoldable pub add_modes :
      RobotStateHistory F → ℕ → List (ModeTraceEntry F) → Interval ℕ → Result (Interval ℕ)
  add_modes h time [] between = ok between
  add_modes h time (e ∷ es) between = do
    range ← range_of_num_samples_in h time e.mode
    between' ← add_interval between range
    add_modes h time es between'

  -- `samples_between_modes` after the first mode.
  unfoldable pub leave_first : ℕ → Interval ℕ → ℕ → Interval ℕ → Result (Interval ℕ)
  leave_first trace_size initial_range sample_index between =
      if trace_size == 1
      then subtract_scalar between sample_index
      else if ltb initial_range.lower sample_index
      then (Intervals.construct 0 (sub64 initial_range.upper sample_index) >>= λ rest.
          add_interval between rest)
      else (add_interval between initial_range >>= λ sum. subtract_scalar sum sample_index)

  unfoldable pub samples_between_modes :
      LookAheadJob F → RobotStateHistory F → ℕ → Result (Interval ℕ)
  samples_between_modes job h earliest_collision_idx = do
    between ← singleton earliest_collision_idx
    mode ← starting_mode job.prediction_trace
    sample_index ← checked_sample_index h job.snapshot_time mode job.initial_time
    initial_range ← range_of_num_samples_in h job.snapshot_time mode
    left ← leave_first (ModeTrace.size job.prediction_trace) initial_range sample_index between
    add_modes h job.snapshot_time (drop_last (drop 1 job.prediction_trace.entries)) left

  -- A number of samples in milliseconds.
  unfoldable pub distance : ℕ → ℕ → ℕ
  distance count message_frequency =
      round (a.div (a.of_nat (1000 * count)) (a.of_nat message_frequency))

  unfoldable pub notification :
      Bodies.Robot F
      → LookAheadJob F
      → Text × Text
      → Interval ℕ
      → Result (CollisionNotificationMessage F)
  notification robot job human_segment between = do
    segment ← Bodies.segment robot.body job.id.robot_segment
    collision_distance ←
        Intervals.construct (distance between.lower robot.message_frequency)
          (distance between.upper robot.message_frequency)
    mode ← ending_mode job.prediction_trace
    likely ← likelihood job.prediction_trace
    ok (record {
      human_id = job.id.human;
      human_segment = human_segment;
      robot_id = job.id.robot;
      robot_segment = (segment.head_id, segment.tail_id);
      current_time = job.initial_time;
      collision_distance = collision_distance;
      collision_mode = mode;
      likelihood = likely;
    })

  unfoldable pub sleep : RuntimeReceiver F → LookAheadJob F → RuntimeReceiver F
  sleep s job = record s { sleeping_jobs = s.sleeping_jobs ++ job ∷ [] }

  unfoldable pub collide : Runtime F → LookAheadJob F → CollisionNotificationMessage F → Runtime F
  collide s job msg = record s {
    receiver =
        if has_human s.receiver.registry job.id.human then sleep s.receiver job else s.receiver;
    notifications = s.notifications ++ msg ∷ [];
    num_completed = s.num_completed + 1;
    num_collisions = s.num_collisions + 1;
  }

  -- The loop over the next jobs.
  unfoldable pub enqueue_next :
      RuntimeReceiver F → LookAheadJob F → List (LookAheadJob F) → Result (RuntimeReceiver F)
  enqueue_next s job [] = ok s
  enqueue_next s job (nj ∷ njs) =
      (if leb (JobPath.size nj.path) (JobPath.size job.path)
        then ok true
        else (factory_has_registered s.factory s.job_registry nj.initial_time nj.id nj.path
            >>= λ has. ok (not has)))
      >>= λ wanted.
          enqueue_next (if wanted then record s { waiting_jobs = s.waiting_jobs ++ nj ∷ [] } else s)
            job njs

  unfoldable pub go_on : Runtime F → LookAheadJob F → List (LookAheadJob F) → Result (Runtime F)
  go_on s job next_jobs =
      if is_nil next_jobs
      then ok (record s { receiver = sleep s.receiver job; num_completed = s.num_completed + 1 })
      else (enqueue_next s.receiver job next_jobs >>= λ receiver.
          ok (record s { receiver = receiver }))

  unfoldable pub conclude :
      Runtime F
      → RobotStateHistory F
      → Bodies.Robot F
      → Text × Text
      → Option ℕ
      → LookAheadJob F
      → Result (Runtime F)
  conclude s h robot human_segment (some earliest_collision_idx) job = do
    between ← samples_between_modes job h earliest_collision_idx
    msg ← notification robot job human_segment between
    ok (collide s job msg)
  conclude s h robot human_segment none job =
      if has_human s.receiver.registry job.id.human
      then (create_next_jobs s.receiver.factory job h >>= λ next_jobs. go_on s job next_jobs)
      else ok s

  -- What follows where the human is in the registry.
  unfoldable pub found :
      Runtime F → LookAheadJob F → RobotStateHistory F → Bool → Text × Text → Result (Runtime F)
  found s job h false human_segment = ok s
  found s job h true human_segment = do
    robot ← BodyRegistry.robot s.receiver.registry job.id.robot
    r ← earliest_collision_index job h
    conclude (record s { num_processed = s.num_processed + 1 }) h robot human_segment r.0 r.1

  unfoldable pub process_job : Runtime F → LookAheadJob F → Result (Runtime F)
  process_job s job = do
    h ← robot_history s.receiver.registry job.id.robot
    human ← get_human_keypoint_ids s.receiver.registry job.id.human job.id.human_segment
    found s job h human.0 human.1

  -- The first of the waiting jobs; a thread has reserved it.
  unfoldable pub process_first : Runtime F → List (LookAheadJob F) → Result (Runtime F)
  process_first s [] = err precondition
  process_first s (job ∷ jobs) =
      process_job (record s { receiver = record s.receiver { waiting_jobs = jobs } }) job

  unfoldable pub process_one_working_job : Runtime F → Result (Runtime F)
  process_one_working_job s = process_first s s.receiver.waiting_jobs
