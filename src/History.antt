-- ===== src/History.antt =====
-- HumanStateHistory and SamplesHistory (include/state.hpp, src/state.cpp): what was received of a
-- human, and what was recorded of a robot's mode, each with its timestamp.
pub mod Latest
pub mod Removal
pub mod Current
mod Tests
use opera.Prelude.{
  ℕ, zero, suc, ◌+◌, ◌-◌, List, [], ◌∷◌, ◌++◌, Bool, true, false, not, ltb, leb, ◌==◌,
  if◌then◌else◌, Result, ok, err, assertion, require, assert, ◌>>=◌, ◌>>◌, length, is_nil, at, back,
  front,
}

-- HumanStateInstance, with the samples that its constructor creates.
pub record HumanStateInstance (S : Type 0) : Type 0 where
  pub timestamp : ℕ
  pub samples : List S

pub record HumanStateHistory (S : Type 0) : Type 0 where
  pub instances : List (HumanStateInstance S)

-- The order of crbegin() and crend().
abbrev pub reversed {ℓ} : {A : Type ℓ} → List A → List A
reversed [] = []
reversed (x ∷ xs) = reversed xs ++ x ∷ []

module _ {S : Type 0} where
  unfoldable pub acquire : HumanStateHistory S → List S → ℕ → HumanStateHistory S
  acquire h samples timestamp = record {
    instances = h.instances ++ record { timestamp = timestamp; samples = samples } ∷ [];
  }

  -- The loop of `latest_within`, over the reversed instances.
  unfoldable pub first_within : List (HumanStateInstance S) → ℕ → Result (HumanStateInstance S)
  first_within [] timestamp = err assertion
  first_within (i ∷ is) timestamp =
      if leb i.timestamp timestamp then ok i else first_within is timestamp

  unfoldable pub latest_within : HumanStateHistory S → ℕ → Result (HumanStateInstance S)
  latest_within h timestamp = do
    require (not (is_nil h.instances))
    first_within (reversed h.instances) timestamp

  unfoldable pub latest_time : HumanStateHistory S → Result ℕ
  latest_time h = do require (not (is_nil h.instances)); i ← back h.instances; ok i.timestamp

  unfoldable pub earliest_time : HumanStateHistory S → Result ℕ
  earliest_time h = do require (not (is_nil h.instances)); i ← front h.instances; ok i.timestamp

  unfoldable pub any_within : List (HumanStateInstance S) → ℕ → Bool
  any_within [] timestamp = false
  any_within (i ∷ is) timestamp =
      if leb i.timestamp timestamp then true else any_within is timestamp

  unfoldable pub has_instances_within : HumanStateHistory S → ℕ → Bool
  has_instances_within h timestamp = any_within h.instances timestamp

  -- The instances from the one with the timestamp on; the iterator at the end is an assertion.
  unfoldable pub from_time : List (HumanStateInstance S) → ℕ → Result (List (HumanStateInstance S))
  from_time [] timestamp = err assertion
  from_time (i ∷ is) timestamp =
      if i.timestamp == timestamp then ok (i ∷ is) else from_time is timestamp

  unfoldable pub instance_distance : HumanStateHistory S → ℕ → ℕ → Result ℕ
  instance_distance h lower upper = do
    require (not (is_nil h.instances))
    require (leb lower upper)
    upper_it ← from_time (reversed h.instances) upper
    lower_it ← from_time upper_it lower
    ok (length upper_it - length lower_it)

  unfoldable pub instance_number : HumanStateHistory S → ℕ → Result ℕ
  instance_number h timestamp = do
    it ← from_time (reversed h.instances) timestamp
    ok (length h.instances - 1 - (length h.instances - length it))

  unfoldable pub at_index : HumanStateHistory S → ℕ → Result (HumanStateInstance S)
  at_index h idx = at h.instances idx

  unfoldable pub size : HumanStateHistory S → ℕ
  size h = length h.instances

  -- The loop of `remove_older_than`.
  unfoldable pub drop_older : List (HumanStateInstance S) → ℕ → List (HumanStateInstance S)
  drop_older [] timestamp = []
  drop_older (i ∷ is) timestamp =
      if ltb i.timestamp timestamp then drop_older is timestamp else i ∷ is

  unfoldable pub remove_older_than : HumanStateHistory S → ℕ → HumanStateHistory S
  remove_older_than h timestamp = record { instances = drop_older h.instances timestamp }

-- SamplesHistory: the samples of each segment, from a timestamp on.
pub record SamplesHistory (S : Type 0) : Type 0 where
  pub entries : List (ℕ × List (List S))

module _ {S : Type 0} where
  unfoldable pub append : SamplesHistory S → ℕ → List (List S) → SamplesHistory S
  append h timestamp samples = record { entries = h.entries ++ (timestamp, samples) ∷ [] }

  -- The loop of `at`: the number of entries before the first one past the timestamp.
  unfoldable pub count_until : List (ℕ × List (List S)) → ℕ → ℕ
  count_until [] timestamp = 0
  count_until ((t, samples) ∷ es) timestamp =
      if ltb timestamp t then 0 else suc (count_until es timestamp)

  unfoldable pub samples_at : SamplesHistory S → ℕ → Result (List (List S))
  samples_at h timestamp = do
    require (not (is_nil h.entries))
    let i = count_until h.entries timestamp
    assert (ltb 0 i)
    e ← at h.entries (i - 1)
    ok e.1

  unfoldable pub any_until : List (ℕ × List (List S)) → ℕ → Bool
  any_until [] timestamp = false
  any_until ((t, samples) ∷ es) timestamp = if leb t timestamp then true else any_until es timestamp

  unfoldable pub has_samples_at : SamplesHistory S → ℕ → Bool
  has_samples_at h timestamp = any_until h.entries timestamp

  unfoldable pub size_at : SamplesHistory S → ℕ → Result ℕ
  size_at h timestamp = do samples ← samples_at h timestamp; first ← at samples 0; ok (length first)
