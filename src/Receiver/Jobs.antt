-- ===== src/Receiver/Jobs.antt =====
-- The jobs that a message makes, wakes and moves, and the handlers of the state messages
-- (src/runtime_io.cpp).
use opera.Prelude.{
  ℕ, ◌+◌, List, [], ◌∷◌, ◌++◌, Bool, true, false, not, ltb, if◌then◌else◌, Result, ok, ◌>>=◌, at,
}
use opera.Prelude.Doubles.{Doubles}
use opera.Prelude.Arithmetic.{Arithmetic}
use opera.Prelude.Texts.{Text}
use opera.ModeTrace.{ModeTrace, Likelihoods, push_back}
use opera.ModeTrace
use opera.JobPath
use opera.JobRegistry.{Registry}
use opera.History.{HumanStateInstance}
use opera.Bodies.{BodySegment}
use opera.Bodies.Sample.{BodySegmentSample}
use opera.RobotHistory.{mode_at}
use opera.RobotHistory.Snapshot.{can_look_ahead}
use opera.LookAhead.{LookAheadJob}
use opera.LookAhead.Creating.{different, unaffected, completed, uncomputable, Awakened}
use opera.LookAhead.Factories.{Factory, create_new, awaken}
use opera.BodyRegistry.{
  BodyRegistry, HumanStateMessage, RobotStateMessage, contains, robot_ids, robot_history,
  has_human_instances_within, latest_human_instance_within, instance_distance, insert_human,
  acquire_human_state, acquire_robot_state,
}
use opera.BodyRegistry
use opera.Prelude.Maps
use opera.Receiver.{
  RuntimeReceiver, HumanRobotIdPair, pairs_with, remove_old_human_histories,
  remove_old_robot_history, remove_unresponding_humans,
}

-- Where the jobs of a loop go, and the registry of jobs after it.
pub record Moves (F : Type 0) : Type 0 where
  pub job_registry : Registry
  pub sleeping : List (LookAheadJob F)
  pub waiting : List (LookAheadJob F)

module _ {F : Type 0} where
  -- The woken jobs that are different are moved, the others kept.
  unfoldable pub sort_woken : Awakened F → Moves F → Moves F
  sort_woken [] m = m
  sort_woken ((job, different) ∷ woken) m =
      sort_woken woken (record m { waiting = m.waiting ++ job ∷ [] })
  sort_woken ((job, unaffected) ∷ woken) m =
      sort_woken woken (record m { sleeping = m.sleeping ++ job ∷ [] })
  sort_woken ((job, completed) ∷ woken) m =
      sort_woken woken (record m { sleeping = m.sleeping ++ job ∷ [] })
  sort_woken ((job, uncomputable) ∷ woken) m =
      sort_woken woken (record m { sleeping = m.sleeping ++ job ∷ [] })

  -- A new job waits, unless its human sample is empty.
  unfoldable pub place_new : LookAheadJob F → Registry → Moves F → Moves F
  place_new job registry m =
      if job.human_sample.empty
      then record m { job_registry = registry; sleeping = m.sleeping ++ job ∷ [] }
      else record m { job_registry = registry; waiting = m.waiting ++ job ∷ [] }

module _ {F : Type 0} ⦃d : Doubles F⦄ ⦃a : Arithmetic F⦄ ⦃l : Likelihoods F⦄ where
  -- The loop over the jobs that slept, in the order of the queue.
  unfoldable pub move_loop :
      Factory → BodyRegistry F → List (LookAheadJob F) → Moves F → Result (Moves F)
  move_loop factory r [] m = ok m
  move_loop factory r (job ∷ jobs) m = do
    h ← robot_history r job.id.robot
    inst ← latest_human_instance_within r job.id.human h.latest_time
    distance ← instance_distance r job.id.human job.initial_time inst.timestamp
    looks ← if ltb 0 distance then can_look_ahead h job.snapshot_time inst.timestamp else ok false
    moved ←
        if looks
        then (at inst.samples job.id.human_segment >>= λ sample.
            awaken factory m.job_registry job inst.timestamp sample h
            >>= λ (woken : Awakened F × Registry).
                ok (sort_woken woken.0 (record m { job_registry = woken.1 })))
        else ok (record m { sleeping = m.sleeping ++ job ∷ [] })
    move_loop factory r jobs moved

  unfoldable pub move_sleeping_jobs_to_waiting_jobs : RuntimeReceiver F → Result (RuntimeReceiver F)
  move_sleeping_jobs_to_waiting_jobs s = do
    m ←
        move_loop s.factory s.registry s.sleeping_jobs
          (record { job_registry = s.job_registry; sleeping = []; waiting = [] })
    ok (record s {
      job_registry = m.job_registry;
      sleeping_jobs = m.sleeping;
      waiting_jobs = s.waiting_jobs ++ m.waiting;
    })

  -- The inner loop of the new jobs of a pair, over the robot's segments.
  unfoldable pub create_row :
      Factory
      → Text
      → BodySegment F
      → Text
      → List (BodySegment F)
      → ℕ
      → HumanStateInstance (BodySegmentSample F)
      → ModeTrace F
      → Moves F
      → Result (Moves F)
  create_row factory human hs robot [] timestamp inst trace m = ok m
  create_row factory human hs robot (rs ∷ rest) timestamp inst trace m = do
    sample ← at inst.samples hs.index
    created ←
        create_new factory m.job_registry
          (record {
            human = human;
            human_segment = hs.index;
            robot = robot;
            robot_segment = rs.index;
          })
          timestamp sample trace JobPath.empty
    create_row factory human hs robot rest timestamp inst trace (place_new created.0 created.1 m)

  -- The outer loop, over the human's segments.
  unfoldable pub create_all :
      Factory
      → Text
      → List (BodySegment F)
      → Text
      → List (BodySegment F)
      → ℕ
      → HumanStateInstance (BodySegmentSample F)
      → ModeTrace F
      → Moves F
      → Result (Moves F)
  create_all factory human [] robot rss timestamp inst trace m = ok m
  create_all factory human (hs ∷ rest) robot rss timestamp inst trace m = do
    row ← create_row factory human hs robot rss timestamp inst trace m
    create_all factory human rest robot rss timestamp inst trace row

  -- One pending pair: whether it is promoted, and the jobs.
  unfoldable pub promote_pair :
      Factory → BodyRegistry F → HumanRobotIdPair → Moves F → Result (Bool × Moves F)
  promote_pair factory r p m = do
    h ← robot_history r p.robot
    received ← has_human_instances_within r p.human h.latest_time
    if not received then ok (false, m) else do
      inst ← latest_human_instance_within r p.human h.latest_time
      looks ← can_look_ahead h inst.timestamp inst.timestamp
      if not looks then ok (false, m) else do
        human ← BodyRegistry.human r p.human
        robot ← BodyRegistry.robot r p.robot
        trace ← push_back ModeTrace.empty (mode_at h inst.timestamp) l.one
        m' ←
            create_all factory human.id human.segments robot.body.id robot.body.segments
              inst.timestamp inst trace m
        ok (true, m')

  -- The loop over the pending pairs, with those that stay pending.
  unfoldable pub promote_loop :
      Factory
      → BodyRegistry F
      → List HumanRobotIdPair
      → Moves F
      → Result (List HumanRobotIdPair × Moves F)
  promote_loop factory r [] m = ok ([], m)
  promote_loop factory r (p ∷ ps) m = promote_pair factory r p m >>= λ (done : Bool × Moves F).
      promote_loop factory r ps done.1 >>= λ (rest : List HumanRobotIdPair × Moves F).
      ok (if done.0 then rest.0 else p ∷ rest.0, rest.1)

  unfoldable pub promote_pairs_to_jobs : RuntimeReceiver F → Result (RuntimeReceiver F)
  promote_pairs_to_jobs s = do
    r ← promote_loop s.factory s.registry s.pending_human_robot_pairs (record {
      job_registry = s.job_registry;
      sleeping = s.sleeping_jobs;
      waiting = s.waiting_jobs;
    })
    ok (record s {
      pending_human_robot_pairs = r.0;
      job_registry = r.1.job_registry;
      sleeping_jobs = r.1.sleeping;
      waiting_jobs = r.1.waiting;
    })

  -- What both handlers of state messages do in the end.
  unfoldable pub update_jobs : RuntimeReceiver F → ℕ → Result (RuntimeReceiver F)
  update_jobs s timestamp = do
    s1 ← remove_unresponding_humans s timestamp
    s2 ← move_sleeping_jobs_to_waiting_jobs s1
    promote_pairs_to_jobs s2

  -- The humans of a message that are not known get the default body.
  unfoldable pub register_unknown :
      List (Text × Text) → List F → RuntimeReceiver F → List Text → Result (RuntimeReceiver F)
  register_unknown segment_pairs thicknesses s [] = ok s
  register_unknown segment_pairs thicknesses s (hid ∷ hids) =
      (if contains s.registry hid
        then ok s
        else (insert_human s.registry hid segment_pairs thicknesses >>= λ registry. ok (record s {
          registry = registry;
          pending_human_robot_pairs =
              s.pending_human_robot_pairs ++ pairs_with hid (robot_ids s.registry);
        })))
      >>= λ s'. register_unknown segment_pairs thicknesses s' hids

  unfoldable pub on_human_state :
      List (Text × Text)
      → List F
      → RuntimeReceiver F
      → HumanStateMessage F
      → Result (RuntimeReceiver F)
  on_human_state segment_pairs thicknesses s msg = do
    s1 ← register_unknown segment_pairs thicknesses s (Maps.keys msg.bodies)
    registry ← acquire_human_state s1.registry msg
    s2 ←
        remove_old_human_histories (record s1 { registry = registry }) (Maps.keys msg.bodies)
          msg.timestamp
    s3 ← update_jobs s2 msg.timestamp
    ok (record s3 { num_state_messages_received = s3.num_state_messages_received + 1 })

  unfoldable pub on_robot_state :
      (ℕ → Text) → RuntimeReceiver F → RobotStateMessage F → Result (RuntimeReceiver F)
  on_robot_state to_string s msg = do
    s' ←
        if contains s.registry msg.id
        then (acquire_robot_state to_string s.registry msg >>= λ registry.
            remove_old_robot_history (record s { registry = registry }) msg.id msg.timestamp
            >>= λ s1. update_jobs s1 msg.timestamp)
        else ok s
    ok (record s' { num_state_messages_received = s'.num_state_messages_received + 1 })
