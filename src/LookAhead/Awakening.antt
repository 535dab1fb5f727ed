-- ===== src/LookAhead/Awakening.antt =====
-- `awaken` of the two factories (src/lookahead_job_factory.cpp). Logging is left out. A reusing
-- factory's registry goes in and comes out with each call.
use opera.Prelude.{
  ℕ, ◌+◌, ◌-◌, [], ◌∷◌, Bool, not, ltb, ◌==◌, if◌then◌else◌, none, some, Result, ok, ◌>>=◌, length,
  is_nil, at,
}
use opera.Prelude.Doubles.{Doubles}
use opera.Prelude.Arithmetic.{Arithmetic}
use opera.Barrier.{sub64}
use opera.TraceSampleRange
use opera.Intervals
use opera.ModeTrace.{
  ModeTrace, Likelihoods, has_looped, entry_at, ending_mode, forward_index, backward_index,
  push_back, reduce_between_indices,
}
use opera.ModeTrace
use opera.JobPath.{LookAheadJobPath}
use opera.JobPath
use opera.JobRegistry.{Registry, try_register}
use opera.Bodies.Sample.{BodySegmentSample}
use opera.Section.Kinds.{capsule_kind}
use opera.Sequence.{Sequence, UpdatePolicy, last_barrier, last_upper_trace_index}
use opera.Sequence
use opera.RobotHistory.{RobotStateHistory, mode_at}
use opera.RobotHistory.Snapshot.{samples, checked_sample_index}
use opera.LookAhead.{LookAheadJob, BarrierSequence, discard_job, reuse_job}
use opera.LookAhead.Creating.{
  different, unaffected, completed, uncomputable, ReuseEquivalence, is_strong, Awakened,
  barrier_sequence, create_reuse_from, register_jobs, reset_upper, create_next,
}

module _ {F : Type 0} ⦃l : Likelihoods F⦄ where
  unfoldable pub awaken_discard :
      LookAheadJob F → ℕ → BodySegmentSample F → RobotStateHistory F → Result (Awakened F)
  awaken_discard job time human_sample h =
      if not (ltb job.initial_time time)
      then ok ((job, unaffected) ∷ [])
      else if human_sample.empty
      then ok (
          (discard_job job.id time job.human_sample job.prediction_trace job.path, uncomputable)
          ∷ [])
      else if not (JobPath.is_primary job.path)
      then ok []
      else (push_back ModeTrace.empty (mode_at h time) l.one >>= λ trace.
          ok ((discard_job job.id time human_sample trace JobPath.empty, different) ∷ []))

  -- The end of `awaken`: the job, if the registry does not have it.
  unfoldable pub register_job : Registry → ℕ → LookAheadJob F → Result (Awakened F × Registry)
  register_job registry time job = do
    r ← try_register registry time job.id job.path
    ok (if r.0 then (job, different) ∷ [] else [], r.1)

  -- A job that starts again at the mode of the robot.
  unfoldable pub restart :
      Registry
      → LookAheadJob F
      → ℕ
      → BodySegmentSample F
      → RobotStateHistory F
      → BarrierSequence F
      → Result (Awakened F × Registry)
  restart registry job time human_sample h sequence = do
    trace ← push_back ModeTrace.empty (mode_at h time) l.one
    register_job registry time
        (reuse_job job.id time time human_sample trace JobPath.empty sequence)

module _ {F : Type 0} ⦃d : Doubles F⦄ ⦃a : Arithmetic F⦄ ⦃l : Likelihoods F⦄ where
  -- Where the barriers that are left end: one mode further if they cover all samples of the mode.
  unfoldable pub reused_upper :
      LookAheadJob F → RobotStateHistory F → ℕ → ℕ → BarrierSequence F → Result ℕ
  reused_upper job h snapshot_time lower sequence = do
    last ← last_upper_trace_index sequence
    e ← entry_at job.prediction_trace (lower + last)
    b ← last_barrier sequence
    top ← TraceSampleRange.maximum_sample_index b.range
    all_samples ← samples h snapshot_time e.mode
    ss ← at all_samples job.id.robot_segment
    ok (if top == sub64 (length ss) 1 then lower + last + 1 else lower + last)

  -- A job whose whole trace is covered: the jobs of the next modes, or none where it has looped.
  unfoldable pub awaken_further :
      Registry → LookAheadJob F → ℕ → RobotStateHistory F → Result (Awakened F × Registry)
  awaken_further registry job time h = do
    jobs ← create_next create_reuse_from job h
    if is_nil jobs
        then ok ((job, completed) ∷ [], registry)
        else register_jobs registry time job.id jobs

  -- The job with the barriers that still hold for the human sample.
  unfoldable pub awaken_reset :
      Registry
      → ReuseEquivalence
      → LookAheadJob F
      → ℕ
      → ℕ
      → BodySegmentSample F
      → RobotStateHistory F
      → BarrierSequence F
      → ℕ
      → Result (Awakened F × Registry)
  awaken_reset registry equivalence job time snapshot_time human_sample h sequence lower = do
    upper ←
        if is_strong equivalence
        then reset_upper lower 0 job.prediction_trace (ModeTrace.size job.prediction_trace - 1)
        else ok (ModeTrace.size job.prediction_trace - 1)
    start_sample_index ← checked_sample_index h snapshot_time (mode_at h time) time
    range ← Intervals.construct lower upper
    sequence' ←
        Sequence.reset ⦃k = capsule_kind⦄ sequence human_sample range.lower range.upper
          start_sample_index
    if Sequence.is_empty sequence' then restart registry job time human_sample h sequence' else do
      top ← reused_upper job h snapshot_time lower sequence'
      let complete = top == ModeTrace.size job.prediction_trace
      trace ← reduce_between_indices job.prediction_trace lower (if complete then top - 1 else top)
      path ← JobPath.reduce_between job.path lower top
      let next = reuse_job job.id time snapshot_time human_sample trace path sequence'
      if complete then awaken_further registry next time h else register_job registry time next

  unfoldable pub awaken_reuse :
      Registry
      → ReuseEquivalence
      → LookAheadJob F
      → ℕ
      → BodySegmentSample F
      → RobotStateHistory F
      → Result (Awakened F × Registry)
  awaken_reuse registry equivalence job time human_sample h =
      if not (ltb job.initial_time time)
      then ok ((job, unaffected) ∷ [], registry)
      else (barrier_sequence job >>= λ sequence.
          let snapshot_time = if is_strong equivalence then time else job.snapshot_time in
          if human_sample.empty
          then (try_register registry time job.id job.path >>= λ (r : Bool × Registry). ok (
            (
              reuse_job job.id time snapshot_time job.human_sample job.prediction_trace job.path
                  sequence,
              uncomputable,
            )
                ∷ [],
            r.1,
          ))
          else (forward_index job.prediction_trace (mode_at h time) >>= λ found. elim found [
            | none ↦ restart registry job time human_sample h (Sequence.clear sequence)
            | some lower ↦
                awaken_reset registry equivalence job time snapshot_time human_sample h sequence
                  lower
          ]))
