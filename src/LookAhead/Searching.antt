-- ===== src/LookAhead/Searching.antt =====
-- `earliest_collision_index` of both kinds of jobs (src/lookahead_job.cpp).
use opera.Prelude.{
  ℕ, zero, suc, ◌+◌, ◌-◌, max, List, Bool, true, false, not, ltb, ◌==◌, if◌then◌else◌, Option, none,
  some, Result, ok, assert, ◌>>=◌, ◌>>◌, length, at,
}
use opera.Prelude.Doubles.{Doubles}
use opera.Prelude.Arithmetic.{Arithmetic}
use opera.TraceSampleRange
use opera.Mode.{mode_eq}
use opera.ModeTrace.{ModeTrace, ending_mode, starting_mode}
use opera.ModeTrace
use opera.Bodies.Sample.{BodySegmentSample, intersects, sample_ne}
use opera.Section.Kinds.{capsule_kind}
use opera.Sequence.{Sequence, Samples, last_upper_trace_index, last_barrier, check_and_update}
use opera.Sequence
use opera.RobotHistory.{RobotStateHistory}
use opera.RobotHistory.Snapshot.{samples, checked_sample_index}
use opera.LookAhead.{LookAheadJob, BarrierSequence, discard, reuse}

-- `operator!=` on the samples that the barrier sequences compare.
abbrev pub sample_differences :
    {F : Type 0} → ⦃d : Doubles F⦄ → ⦃a : Arithmetic F⦄ → Samples (BodySegmentSample F)
sample_differences = record { differ = sample_ne }

module _ {F : Type 0} ⦃d : Doubles F⦄ ⦃a : Arithmetic F⦄ where
  -- The samples of the job's robot segment in the mode to look into.
  unfoldable pub segment_samples :
      LookAheadJob F → RobotStateHistory F → Result (List (BodySegmentSample F))
  segment_samples job h = do
    mode_to_look ← ending_mode job.prediction_trace
    all_samples ← samples h job.snapshot_time mode_to_look
    ss ← at all_samples job.id.robot_segment
    assert (ltb 0 (length ss))
    ok ss

  -- The bounds of the search from `lower` on, or none where nothing is left to look at.
  unfoldable pub bounds : LookAheadJob F → RobotStateHistory F → ℕ → ℕ → Result (Option (ℕ × ℕ))
  bounds job h lower count = do
    mode_to_look ← ending_mode job.prediction_trace
    first_mode ← starting_mode job.prediction_trace
    starts ← mode_eq mode_to_look first_mode
    if not starts then ok (some (lower, count - 1)) else do
      bound ← checked_sample_index h job.snapshot_time mode_to_look job.initial_time
      if ModeTrace.size job.prediction_trace == 1
          then ok (some (max lower bound, count - 1))
          else if bound == 0
          then ok none
          else ok (some (lower, bound - 1))

  -- The loop of a discarding job, with the indexes left. The human sample keeps its bounding box.
  unfoldable pub discard_loop :
      ℕ → ℕ → BodySegmentSample F → List (BodySegmentSample F) → Result (Option ℕ)
  discard_loop zero i human_sample ss = ok none
  discard_loop (suc left) i human_sample ss = at ss i >>= λ robot_segment.
      elim robot_segment.empty [
        | true ↦ discard_loop left (i + 1) human_sample ss
        | false ↦
            let r = intersects human_sample robot_segment in
            elim r.0 [ true ↦ ok (some i) | false ↦ discard_loop left (i + 1) r.1.0 ss ]
      ]

  -- A search between bounds; there are none to search where the lower one is greater.
  unfoldable pub discard_index : LookAheadJob F → RobotStateHistory F → Result (Option ℕ)
  discard_index job h = do
    ss ← segment_samples job h
    window ← bounds job h 0 (length ss)
    elim window [
      | none ↦ ok none
      | some (lower, upper) ↦ discard_loop (upper + 1 - lower) lower job.human_sample ss
    ]

  -- The loop of a reusing job, which keeps what it finds in the barrier sequence.
  unfoldable pub reuse_loop :
      ℕ
      → ℕ
      → ℕ
      → BodySegmentSample F
      → List (BodySegmentSample F)
      → BarrierSequence F
      → Result (Option ℕ × BarrierSequence F)
  reuse_loop zero i trace_index human_sample ss sequence = ok (none, sequence)
  reuse_loop (suc left) i trace_index human_sample ss sequence = at ss i >>= λ robot_sample.
      elim robot_sample.empty [
        | true ↦ reuse_loop left (i + 1) trace_index human_sample ss sequence
        | false ↦
            check_and_update ⦃k = capsule_kind⦄ ⦃e = sample_differences⦄ sequence human_sample
              robot_sample (record { trace = trace_index; sample = i })
            >>= λ (r : Bool × BarrierSequence F). elim r.0 [
              | true ↦ reuse_loop left (i + 1) trace_index human_sample ss r.1
              | false ↦ ok (some i, r.1)
            ]
      ]

  -- Where a reusing job goes on after the barriers that it has.
  unfoldable pub resume_index : BarrierSequence F → ℕ → Result ℕ
  resume_index sequence trace_index = if Sequence.is_empty sequence then ok 0 else do
    last ← last_upper_trace_index sequence
    if not (last == trace_index) then ok 0 else do
      b ← last_barrier sequence
      top ← TraceSampleRange.maximum_sample_index b.range
      ok (top + 1)

  unfoldable pub reuse_index :
      LookAheadJob F
      → BarrierSequence F
      → RobotStateHistory F
      → Result (Option ℕ × BarrierSequence F)
  reuse_index job sequence h = do
    ss ← segment_samples job h
    lower ← resume_index sequence (ModeTrace.size job.prediction_trace - 1)
    window ← bounds job h lower (length ss)
    elim window [
      | none ↦ ok (none, sequence)
      | some (from, upper) ↦
          reuse_loop (upper + 1 - from) from (ModeTrace.size job.prediction_trace - 1)
            job.human_sample ss sequence
    ]

  -- The index, and the job, whose sequence may have changed.
  unfoldable pub earliest_collision_index :
      LookAheadJob F → RobotStateHistory F → Result (Option ℕ × LookAheadJob F)
  earliest_collision_index job h = elim job.kind [
    | discard ↦ discard_index job h >>= λ i. ok (i, job)
    | reuse sequence ↦ reuse_index job sequence h >>= λ (r : Option ℕ × BarrierSequence F).
        ok (r.0, record job { kind = reuse r.1 })
  ]
