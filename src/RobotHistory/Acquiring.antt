-- ===== src/RobotHistory/Acquiring.antt =====
-- `acquire` of a robot history (src/state.cpp). A change of mode closes the presence in the former
-- mode, and the points of the message update one sample of each segment.
use opera.Prelude.{
  ℕ, zero, suc, ◌+◌, ◌-◌, ◌%◌, ◌^◌, List, [], ◌∷◌, ◌++◌, Bool, true, ltb, ◌==◌, if◌then◌else◌,
  Result, ok, err, out_of_range, assert, ◌>>=◌, ◌>>◌, length, is_nil, at, set_at, back, replicate,
}
use opera.Prelude.Doubles.{Doubles}
use opera.Prelude.Arithmetic.{Arithmetic}
use opera.Prelude.Texts.{Text, text_eq}
use opera.Barrier.{sub64}
use opera.Geometry.{Point}
use opera.Mode.{Mode, mode_ne}
use opera.Mode
use opera.ModeTrace.{ModeTrace, Likelihoods, push_back}
use opera.History.{append, samples_at, size_at}
use opera.Bodies.{BodySegment, num_points, num_segments}
use opera.Bodies.Sample.{BodySegmentSample, create_empty, update}
use opera.RobotHistory.{
  RobotModePresence, BodySamples, RobotStateHistory, has_key, state_of, set_state, empty_buffer,
}
use opera.RobotHistory.Snapshot.{unrounded_sample_index, sample_index}

-- Map<KeypointIdType,List<Point>>
abbrev pub Points : Type 0 → Type 0
Points F = List (Text × List (Point F))

unfoldable pub entrance_timestamp : List RobotModePresence → ℕ → Result ℕ
entrance_timestamp ps timestamp = if is_nil ps then ok timestamp else (back ps >>= λ p. ok p.to)

module _ {F : Type 0} where
  unfoldable pub points_at : Points F → Text → Result (List (Point F))
  points_at [] id = err out_of_range
  points_at ((k, ps) ∷ rest) id = if text_eq k id then ok ps else points_at rest id

  -- The loop that repeats the last sample of each segment, with the segments left.
  unfoldable pub pad_loop : ℕ → ℕ → ℕ → ℕ → BodySamples F → Result (BodySamples F)
  pad_loop zero i last_state_idx idx_distance buffer = ok buffer
  pad_loop (suc left) i last_state_idx idx_distance buffer = do
    ss ← at buffer i
    last_sample ← at ss last_state_idx
    pad_loop left (i + 1) last_state_idx idx_distance
        (set_at buffer i (ss ++ replicate idx_distance last_sample))

  -- Copies of the last sample of one segment.
  unfoldable pub push_last : ℕ → List (BodySegmentSample F) → Result (List (BodySegmentSample F))
  push_last zero ss = ok ss
  push_last (suc n) ss = do last ← at ss (sub64 (length ss) 1); push_last n (ss ++ last ∷ [])

module _ {F : Type 0} ⦃d : Doubles F⦄ ⦃a : Arithmetic F⦄ where
  unfoldable pub pad_buffer : RobotStateHistory F → F → Result (BodySamples F)
  pad_buffer h unrounded_index =
      if is_nil h.current_mode_states_buffer
      then ok h.current_mode_states_buffer
      else (at h.current_mode_states_buffer 0 >>= λ ss.
          if d.lt (a.of_nat ((sub64 (length ss) 1 + 1) % 2 ^ 64)) unrounded_index
          then pad_loop (num_segments h.robot.body) 0 (sub64 (length ss) 1)
              (sub64 (a.floor unrounded_index) (sub64 (length ss) 1)) h.current_mode_states_buffer
          else ok h.current_mode_states_buffer)

  -- The buffer goes to the samples of the mode that is left.
  unfoldable pub leave_mode : RobotStateHistory F → ℕ → Result (RobotStateHistory F)
  leave_mode h timestamp = do
    index ← unrounded_sample_index h timestamp h.latest_mode timestamp
    buffer ← pad_buffer h index
    ok (record h {
      current_mode_states_buffer = buffer;
      mode_states =
          set_state h.mode_states h.latest_mode
            (append (state_of h.mode_states h.latest_mode) timestamp buffer);
    })

  unfoldable pub entered_buffer : RobotStateHistory F → Mode → ℕ → Result (BodySamples F)
  entered_buffer h mode timestamp =
      if has_key h.mode_states mode
      then samples_at (state_of h.mode_states mode) timestamp
      else ok (empty_buffer h.robot)

  -- The index to update and the number of samples that are new: the difference of two `int`, of
  -- which only a positive one matters.
  unfoldable pub update_target : RobotStateHistory F → ℕ → ℕ → Result (ℕ × ℕ)
  update_target h timestamp buffered =
      if has_key h.mode_states h.latest_mode
      then (sample_index h timestamp h.latest_mode timestamp >>= λ update_idx.
          size_at (state_of h.mode_states h.latest_mode) timestamp >>= λ known.
          ok (update_idx, update_idx + 1 - known))
      else ok (buffered, 1)

  unfoldable pub update_segment :
      BodySegment F
      → Points F
      → ℕ
      → ℕ
      → List (BodySegmentSample F)
      → Result (List (BodySegmentSample F))
  update_segment segment points update_idx idx_distance ss = do
    head_pts ← points_at points segment.head_id
    tail_pts ← points_at points segment.tail_id
    copied ← push_last (idx_distance - 1) ss
    let grown = if ltb 0 idx_distance then copied ++ create_empty segment ∷ [] else copied
    sample ← at grown update_idx
    updated ← update sample head_pts tail_pts
    ok (set_at grown update_idx updated)

  -- The loop over the segments, from an index on.
  unfoldable pub update_loop :
      List (BodySegment F) → ℕ → Points F → ℕ → ℕ → BodySamples F → Result (BodySamples F)
  update_loop [] i points update_idx idx_distance buffer = ok buffer
  update_loop (segment ∷ segments) i points update_idx idx_distance buffer = do
    ss ← at buffer i
    updated ← update_segment segment points update_idx idx_distance ss
    update_loop segments (i + 1) points update_idx idx_distance (set_at buffer i updated)

  unfoldable pub update_buffer : RobotStateHistory F → Points F → ℕ → Result (RobotStateHistory F)
  update_buffer h points timestamp = do
    first ← at h.current_mode_states_buffer 0
    target ← update_target h timestamp (length first)
    buffer ←
        update_loop h.robot.body.segments 0 points target.0 target.1 h.current_mode_states_buffer
    ok (record h { current_mode_states_buffer = buffer })

module _ {F : Type 0} ⦃d : Doubles F⦄ ⦃a : Arithmetic F⦄ ⦃l : Likelihoods F⦄ where
  unfoldable pub entered_traces : RobotStateHistory F → ℕ → Result (List (ℕ × ModeTrace F))
  entered_traces h timestamp =
      if Mode.is_empty h.latest_mode
      then ok h.mode_traces
      else (back h.mode_traces >>= λ (e : ℕ × ModeTrace F).
          push_back e.1 h.latest_mode l.one >>= λ trace.
          ok (h.mode_traces ++ (timestamp, trace) ∷ []))

  -- The change to a mode.
  unfoldable pub enter_mode : RobotStateHistory F → Mode → ℕ → Result (RobotStateHistory F)
  enter_mode h mode timestamp = do
    left ← if Mode.is_empty h.latest_mode then ok h else leave_mode h timestamp
    buffer ← entered_buffer left mode timestamp
    from ← entrance_timestamp left.mode_presences timestamp
    traces ← entered_traces left timestamp
    ok (record left {
      current_mode_states_buffer = buffer;
      mode_presences =
          left.mode_presences
          ++ record {
            mode = left.latest_mode;
            exit_destination = mode;
            from = from;
            to = timestamp;
          }
            ∷ [];
      mode_traces = traces;
      latest_mode = mode;
    })

  unfoldable pub changes_mode : RobotStateHistory F → Mode → Result Bool
  changes_mode h mode = if Mode.is_empty h.latest_mode then ok true else mode_ne h.latest_mode mode

  unfoldable pub acquire : RobotStateHistory F → Mode → Points F → ℕ → Result (RobotStateHistory F)
  acquire h mode points timestamp = do
    assert (length points == num_points h.robot.body)
    changed ← changes_mode h mode
    entered ← if changed then enter_mode h mode timestamp else ok h
    update_buffer (record entered { latest_time = timestamp }) points timestamp
