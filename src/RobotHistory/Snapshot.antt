-- ===== src/RobotHistory/Snapshot.antt =====
-- RobotStateHistorySnapshot (include/state.hpp, src/state.cpp): a history seen at a time. Each
-- method takes the history and the time of the snapshot first.
use opera.Prelude.{
  ℕ, suc, ◌+◌, ◌-◌, ◌^◌, List, [], ◌∷◌, Bool, true, false, not, ◌&&◌, ltb, leb, if◌then◌else◌,
  Result, ok, err, undefined, assert, ◌>>=◌, ◌>>◌, is_nil, at, min, max,
}
use opera.Prelude.Doubles.{Doubles}
use opera.Prelude.Arithmetic.{Arithmetic}
use opera.Barrier.{sub64}
use opera.Intervals.{Interval}
use opera.Intervals
use opera.Mode.{Mode, mode_eq}
use opera.Mode
use opera.ModeTrace.{ModeTrace}
use opera.History.{reversed, has_samples_at, samples_at, size_at}
use opera.RobotHistory.{
  RobotModePresence, BodySamples, ModeSamples, RobotStateHistory, has_key, states_at, mode_at,
}

-- The presences that a test keeps.
unfoldable pub keep :
    (RobotModePresence → Result Bool) → List RobotModePresence → Result (List RobotModePresence)
keep test [] = ok []
keep test (p ∷ ps) =
    let rest = keep test ps in
    test p >>= λ kept. rest >>= λ result. ok (if kept then p ∷ result else result)

-- a == b && rest
unfoldable pub and_also : Result Bool → Result Bool → Result Bool
and_also first second = first >>= λ b. if b then second else ok false

unfoldable pub is_in : Mode → RobotModePresence → Result Bool
is_in mode p = if Mode.is_empty p.mode then ok false else mode_eq p.mode mode

-- The loop of `unrounded_sample_index`, over the reversed presences but the first one.
unfoldable pub entry_time : List RobotModePresence → Mode → ℕ → Result ℕ
entry_time [] mode timestamp = ok (timestamp + 1)
entry_time (p ∷ []) mode timestamp = ok (timestamp + 1)
entry_time (p ∷ q ∷ ps) mode timestamp =
    let rest = entry_time (q ∷ ps) mode timestamp in
    mode_eq p.mode mode >>= λ same.
    if same && (leb p.from timestamp && ltb timestamp p.to) then ok p.from else rest

-- The entry time of the latest presence, which is undefined on a history without any.
unfoldable pub entrance : List RobotModePresence → Mode → ℕ → Result ℕ
entrance [] mode timestamp = err undefined
entrance (p ∷ ps) mode timestamp =
    if leb p.to timestamp then ok p.to else entry_time (p ∷ ps) mode timestamp

-- The loop of `can_look_ahead`.
unfoldable pub was_in_before : List RobotModePresence → ℕ → Mode → ℕ → Result Bool
was_in_before [] snapshot_time mode time = ok false
was_in_before (p ∷ ps) snapshot_time mode time =
    let rest = was_in_before ps snapshot_time mode time in
    if leb snapshot_time p.from
    then ok false
    else (is_in mode p >>= λ b. if b && ltb p.to time then ok true else rest)

module _ {F : Type 0} where
  -- The loop of `mode_trace`.
  unfoldable pub count_traces : List (ℕ × ModeTrace F) → ℕ → ℕ
  count_traces [] time = 0
  count_traces ((t, trace) ∷ ts) time = if ltb time t then 0 else suc (count_traces ts time)

  unfoldable pub mode_trace : RobotStateHistory F → ℕ → Result (ModeTrace F)
  mode_trace h time = do e ← at h.mode_traces (sub64 (count_traces h.mode_traces time) 1); ok e.1

  -- The modes in the order of the map.
  unfoldable pub modes_with : ModeSamples F → ℕ → List Mode
  modes_with [] time = []
  modes_with ((m, s) ∷ ms) time =
      if has_samples_at s time then m ∷ modes_with ms time else modes_with ms time

  unfoldable pub modes_with_samples : RobotStateHistory F → ℕ → List Mode
  modes_with_samples h time = modes_with h.mode_states time

  unfoldable pub samples : RobotStateHistory F → ℕ → Mode → Result (BodySamples F)
  samples h time mode = states_at h.mode_states mode >>= λ s. samples_at s time

  unfoldable pub maximum_number_of_samples : RobotStateHistory F → ℕ → Mode → Result ℕ
  maximum_number_of_samples h time mode = states_at h.mode_states mode >>= λ s. size_at s time

  unfoldable pub presences_in : RobotStateHistory F → ℕ → Mode → Result (List RobotModePresence)
  presences_in h time mode =
      keep (λ p. and_also (is_in mode p) (ok (leb p.to time))) h.mode_presences

  unfoldable pub presences_between :
      RobotStateHistory F → ℕ → Mode → Mode → Result (List RobotModePresence)
  presences_between h time source destination =
      keep
        (λ p.
          and_also (and_also (is_in source p) (mode_eq p.exit_destination destination))
            (ok (leb p.to time)))
        h.mode_presences

  unfoldable pub presences_exiting_into :
      RobotStateHistory F → ℕ → Mode → Result (List RobotModePresence)
  presences_exiting_into h time mode =
      keep (λ p. and_also (mode_eq p.exit_destination mode) (ok (leb p.to time))) h.mode_presences

module _ {F : Type 0} ⦃d : Doubles F⦄ ⦃a : Arithmetic F⦄ where
  -- `static_cast<double>(p.to()-p.from())/1000*message_frequency`, rounded
  unfoldable pub num_samples : RobotStateHistory F → RobotModePresence → ℕ
  num_samples h p = a.floor (
      a.mul (a.div (a.of_nat (sub64 p.to p.from)) (a.of_nat 1000))
        (a.of_nat h.robot.message_frequency))

  unfoldable pub range_loop : RobotStateHistory F → List RobotModePresence → ℕ → ℕ → ℕ × ℕ
  range_loop h [] min_value max_value = (min_value, max_value)
  range_loop h (p ∷ ps) min_value max_value =
      range_loop h ps (min min_value (num_samples h p)) (max max_value (num_samples h p))

  unfoldable pub range_of_num_samples_within :
      RobotStateHistory F → List RobotModePresence → Result (Interval ℕ)
  range_of_num_samples_within h presences =
      if is_nil presences
      then Intervals.construct 0 0
      else Intervals.construct (range_loop h presences (2 ^ 64 - 1) 0).0
          (range_loop h presences (2 ^ 64 - 1) 0).1

  unfoldable pub range_of_num_samples_in : RobotStateHistory F → ℕ → Mode → Result (Interval ℕ)
  range_of_num_samples_in h time mode =
      presences_in h time mode >>= λ ps. range_of_num_samples_within h ps

  unfoldable pub range_of_num_samples_between :
      RobotStateHistory F → ℕ → Mode → Mode → Result (Interval ℕ)
  range_of_num_samples_between h time mode target =
      presences_between h time mode target >>= λ ps. range_of_num_samples_within h ps

  unfoldable pub unrounded_sample_index : RobotStateHistory F → ℕ → Mode → ℕ → Result F
  unrounded_sample_index h time mode timestamp = do
    entered ← entrance (reversed h.mode_presences) mode timestamp
    assert (leb entered timestamp)
    ok (
        a.mul (a.div (a.of_nat (timestamp - entered)) (a.of_nat 1000))
          (a.of_nat h.robot.message_frequency))

  unfoldable pub sample_index : RobotStateHistory F → ℕ → Mode → ℕ → Result ℕ
  sample_index h time mode timestamp =
      unrounded_sample_index h time mode timestamp >>= λ i. ok (a.floor i)

  unfoldable pub checked_sample_index : RobotStateHistory F → ℕ → Mode → ℕ → Result ℕ
  checked_sample_index h time mode timestamp = do
    result ← sample_index h time mode timestamp
    count ← maximum_number_of_samples h time mode
    assert (ltb result count)
    ok result

  unfoldable pub can_look_ahead : RobotStateHistory F → ℕ → ℕ → Result Bool
  can_look_ahead h snapshot_time time =
      if ltb h.latest_time time
      then ok false
      else if not (has_key h.mode_states (mode_at h time))
      then ok false
      else (states_at h.mode_states (mode_at h time) >>= λ s.
          if not (has_samples_at s time)
          then ok false
          else (unrounded_sample_index h snapshot_time (mode_at h time) time >>= λ index.
              range_of_num_samples_in h snapshot_time (mode_at h time) >>= λ range.
              if d.le (a.of_nat range.upper) index
              then ok false
              else was_in_before h.mode_presences snapshot_time (mode_at h time) time))
