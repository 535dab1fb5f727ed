-- ===== src/RobotHistory.antt =====
-- RobotStateHistory (include/state.hpp, src/state.cpp): the modes that a robot was in and the samples
-- recorded of each. A std::map from modes is an association list in the order of the modes.
pub mod Snapshot
pub mod Acquiring
pub mod Tiling
pub mod Forgetting
mod Tests
use opera.Prelude.{
  ℕ, zero, suc, ◌+◌, ◌-◌, List, [], ◌∷◌, ◌++◌, Bool, true, false, not, ◌&&◌, ◌||◌, ltb, leb,
  if◌then◌else◌, Result, ok, err, out_of_range, undefined, require, ◌>>=◌, ◌>>◌, length, is_nil,
  front, replicate,
}
use opera.Barrier.{sub64}
use opera.Mode.{Mode, mode_lt, equivalent}
use opera.ModeTrace.{ModeTrace, reduce_between_indices}
use opera.ModeTrace
use opera.History.{SamplesHistory}
use opera.Bodies.{Robot, num_segments}
use opera.Bodies.Sample.{BodySegmentSample}

pub record RobotModePresence : Type 0 where
  pub mode : Mode
  pub exit_destination : Mode
  pub from : ℕ
  pub to : ℕ

abbrev pub BodySamples : Type 0 → Type 0
BodySamples F = List (List (BodySegmentSample F))

-- Map<Mode,SamplesHistory>
abbrev pub ModeSamples : Type 0 → Type 0
ModeSamples F = List (Mode × SamplesHistory (BodySegmentSample F))

pub record RobotStateHistory (F : Type 0) : Type 0 where
  pub mode_presences : List RobotModePresence
  pub mode_states : ModeSamples F
  pub latest_mode : Mode
  pub latest_time : ℕ
  pub current_mode_states_buffer : BodySamples F
  pub mode_traces : List (ℕ × ModeTrace F)
  pub robot : Robot F

-- The loop of `mode_at`.
unfoldable pub mode_within : List RobotModePresence → Mode → ℕ → Mode
mode_within [] latest time = latest
mode_within (p ∷ ps) latest time =
    if leb p.from time && ltb time p.to then p.mode else mode_within ps latest time

-- The first two loops of `remove_older_than`.
unfoldable pub drop_left : List RobotModePresence → ℕ → List RobotModePresence
drop_left [] timestamp = []
drop_left (p ∷ ps) timestamp = if ltb p.to timestamp then drop_left ps timestamp else p ∷ ps

module _ {F : Type 0} where
  unfoldable pub has_key : ModeSamples F → Mode → Bool
  has_key [] m = false
  has_key ((k, s) ∷ ks) m = equivalent k m || has_key ks m

  -- `at` of the map
  unfoldable pub states_at : ModeSamples F → Mode → Result (SamplesHistory (BodySegmentSample F))
  states_at [] m = err out_of_range
  states_at ((k, s) ∷ ks) m = if equivalent k m then ok s else states_at ks m

  -- `operator[]`, as the value and as an assignment
  unfoldable pub state_of : ModeSamples F → Mode → SamplesHistory (BodySegmentSample F)
  state_of [] m = record { entries = [] }
  state_of ((k, s) ∷ ks) m = if equivalent k m then s else state_of ks m

  unfoldable pub set_state :
      ModeSamples F → Mode → SamplesHistory (BodySegmentSample F) → ModeSamples F
  set_state [] m v = (m, v) ∷ []
  set_state ((k, s) ∷ ks) m v =
      if equivalent k m
      then (k, v) ∷ ks
      else if mode_lt m k
      then (m, v) ∷ (k, s) ∷ ks
      else (k, s) ∷ set_state ks m v

  -- A list for each segment of the robot.
  unfoldable pub empty_buffer : Robot F → BodySamples F
  empty_buffer robot = replicate (num_segments robot.body) []

  unfoldable pub construct : Robot F → RobotStateHistory F
  construct robot = record {
    mode_presences = [];
    mode_states = [];
    latest_mode = [];
    latest_time = 0;
    current_mode_states_buffer = empty_buffer robot;
    mode_traces = (0, ModeTrace.empty) ∷ [];
    robot = robot;
  }

  unfoldable pub earliest_time : RobotStateHistory F → Result ℕ
  earliest_time h = do
    require (not (is_nil h.mode_presences))
    p ← front h.mode_presences
    ok p.from

  unfoldable pub size : RobotStateHistory F → ℕ
  size h = length h.mode_presences

  unfoldable pub mode_at : RobotStateHistory F → ℕ → Mode
  mode_at h time = mode_within h.mode_presences h.latest_mode time

  unfoldable pub drop_traces : List (ℕ × ModeTrace F) → ℕ → List (ℕ × ModeTrace F)
  drop_traces [] timestamp = []
  drop_traces ((t, trace) ∷ ts) timestamp =
      if ltb t timestamp then drop_traces ts timestamp else (t, trace) ∷ ts

  -- Its last loop, with desired_size and current_size.
  unfoldable pub reduce_traces : List (ℕ × ModeTrace F) → ℕ → ℕ → Result (List (ℕ × ModeTrace F))
  reduce_traces [] desired current = ok []
  reduce_traces ((t, trace) ∷ ts) desired current =
      let grows = ltb current (ModeTrace.size trace) in
      let current' = if grows then ModeTrace.size trace else current in
      let desired' = if grows then desired + 1 else desired in
      let rest = reduce_traces ts desired' current' in
      reduce_between_indices trace (sub64 current' desired') (sub64 current' 1) >>= λ r.
      rest >>= λ rs. ok ((t, r) ∷ rs)

  unfoldable pub remove_older_than : RobotStateHistory F → ℕ → Result (RobotStateHistory F)
  remove_older_than h timestamp = do
    require (ltb 0 timestamp)
    let traces = drop_traces h.mode_traces timestamp
    first ← front traces
    reduced ← reduce_traces traces 1 (ModeTrace.size first.1)
    ok (record h { mode_presences = drop_left h.mode_presences timestamp; mode_traces = reduced })
