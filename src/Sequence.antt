-- ===== src/Sequence.antt =====
-- MinimumDistanceBarrierSequence and its update policies (include/barrier.hpp, src/barrier.cpp): the
-- sections of a human-robot segment pair, one for each human sample that needed its own.
pub mod Adding
pub mod Policies
pub mod Necessary
pub mod Resuming
mod Tests
use opera.Prelude.{
  ℕ, ◌+◌, List, [], ◌∷◌, ◌++◌, Bool, true, false, not, ltb, if◌then◌else◌, Result, ok, err, require,
  ◌>>=◌, ◌>>◌, length, is_nil, back, drop_last, set_back,
}
use opera.Prelude.Doubles.{Doubles}
use opera.TraceSampleRange.{TraceSampleIndex}
use opera.Barrier.{MinimumDistanceBarrier}
use opera.Section
use opera.Section.{Section, SectionKind}
use opera.Section.Reset

-- `operator!=` on samples.
pub record Samples (S : Type 0) : Type 0 where
  pub differ : S → S → Bool

-- The policies, one for each subclass of MinimumDistanceBarrierSequenceUpdatePolicyInterface.
pub data UpdatePolicy : Type 0 where
  keep_one add_when_different add_when_necessary : UpdatePolicy

pub record Sequence (S F : Type 0) : Type 0 where
  pub update_policy : UpdatePolicy
  pub sections : List (Section S F)

module _ {S F : Type 0} where
  unfoldable pub construct : UpdatePolicy → Sequence S F
  construct update_policy = record { update_policy = update_policy; sections = [] }

  unfoldable pub is_empty : Sequence S F → Bool
  is_empty q = is_nil q.sections

  unfoldable pub num_sections : Sequence S F → ℕ
  num_sections q = length q.sections

  -- The sum of the sections' sizes.
  unfoldable pub total_size : List (Section S F) → ℕ
  total_size [] = 0
  total_size (s ∷ ss) = Section.size s + total_size ss

  unfoldable pub num_barriers : Sequence S F → ℕ
  num_barriers q = total_size q.sections

  unfoldable pub last_section : Sequence S F → Result (Section S F)
  last_section q = do require (not (is_empty q)); back q.sections

  unfoldable pub last_barrier : Sequence S F → Result (MinimumDistanceBarrier F)
  last_barrier q = last_section q >>= λ s. Section.last_barrier s

  unfoldable pub last_upper_trace_index : Sequence S F → Result ℕ
  last_upper_trace_index q =
      if is_empty q then ok 0 else (last_section q >>= λ s. Section.last_upper_trace_index s)

  unfoldable pub clear : Sequence S F → Sequence S F
  clear q = record q { sections = [] }

  unfoldable pub add : Sequence S F → Section S F → Sequence S F
  add q section = record q { sections = q.sections ++ section ∷ [] }

  -- The section factory creates a section without barriers.
  unfoldable pub add_from : Sequence S F → S → Sequence S F
  add_from q human_sample = record q {
    sections = q.sections ++ Section.construct human_sample ∷ [];
  }

  -- The section that `last_section` refers to, after a call that changed it.
  unfoldable pub put_last : Sequence S F → Section S F → Sequence S F
  put_last q section = record q { sections = set_back q.sections section }

  -- `if (last_section().is_empty()) _sections.pop_back();`
  unfoldable pub drop_empty : Sequence S F → Result (Sequence S F)
  drop_empty q = do
    section ← last_section q
    if Section.is_empty section then ok (record q { sections = drop_last q.sections }) else ok q

  -- The assignment operator: it leaves the update policy as it was.
  unfoldable pub assign : Sequence S F → Sequence S F → Sequence S F
  assign q other = record q { sections = other.sections }

module _ {S F : Type 0} ⦃d : Doubles F⦄ where
  unfoldable pub reaches_collision : Sequence S F → Result Bool
  reaches_collision q =
      if is_empty q then ok false else (last_section q >>= λ s. Section.reaches_collision s)

module _ {S F : Type 0} ⦃d : Doubles F⦄ ⦃k : SectionKind S F⦄ where
  -- `last_section().check_and_update(robot_sample, index)`
  unfoldable pub check_and_update_last :
      Sequence S F → S → TraceSampleIndex → Result (Bool × Sequence S F)
  check_and_update_last q robot_sample index = do
    section ← last_section q
    r ← Section.check_and_update section robot_sample index
    ok (r.0, put_last q r.1)

  unfoldable pub remove_last_barrier : Sequence S F → Result (Sequence S F)
  remove_last_barrier q = do
    section ← last_section q
    section' ← Section.remove_last_barrier section
    ok (put_last q section')

module _ {S F : Type 0} ⦃d : Doubles F⦄ ⦃k : SectionKind S F⦄ ⦃e : Samples S⦄ where
  unfoldable pub check_and_update_keep_one :
      Sequence S F → S → S → TraceSampleIndex → Result (Bool × Sequence S F)
  check_and_update_keep_one q human_sample robot_sample index = do
    section ← last_section q
    r ← check_and_update_last q robot_sample index
    if e.differ section.human_sample human_sample
        then ok (not (Section.are_colliding section human_sample robot_sample), r.1)
        else ok r

  unfoldable pub check_and_update_add_when_different :
      Sequence S F → S → S → TraceSampleIndex → Result (Bool × Sequence S F)
  check_and_update_add_when_different q human_sample robot_sample index = do
    section ← last_section q
    if e.differ section.human_sample human_sample
        then (do
          reached ← reaches_collision q
          if not reached
              then check_and_update_last (add_from q human_sample) robot_sample index
              else ok (d.lt d.zero (k.minimum_human_robot_distance human_sample robot_sample), q))
        else check_and_update_last q robot_sample index

  -- The branch of a human sample that is not the last section's, where no collision is reached.
  unfoldable pub add_if_colliding :
      Sequence S F → S → S → TraceSampleIndex → Result (Bool × Sequence S F)
  add_if_colliding q human_sample robot_sample index = do
    r ← check_and_update_last q robot_sample index
    if not r.0
        then (do
          q' ← remove_last_barrier r.1
          check_and_update_last (add_from q' human_sample) robot_sample index)
        else ok (d.lt d.zero (k.minimum_human_robot_distance human_sample robot_sample), r.1)

  unfoldable pub check_and_update_add_when_necessary :
      Sequence S F → S → S → TraceSampleIndex → Result (Bool × Sequence S F)
  check_and_update_add_when_necessary q human_sample robot_sample index = do
    section ← last_section q
    if e.differ section.human_sample human_sample
        then (do
          reached ← reaches_collision q
          if not reached
              then add_if_colliding q human_sample robot_sample index
              else ok (d.lt d.zero (k.minimum_human_robot_distance human_sample robot_sample), q))
        else check_and_update_last q robot_sample index

  unfoldable pub check_and_update_section :
      UpdatePolicy → Sequence S F → S → S → TraceSampleIndex → Result (Bool × Sequence S F)
  check_and_update_section keep_one q = check_and_update_keep_one q
  check_and_update_section add_when_different q = check_and_update_add_when_different q
  check_and_update_section add_when_necessary q = check_and_update_add_when_necessary q

  unfoldable pub check_and_update :
      Sequence S F → S → S → TraceSampleIndex → Result (Bool × Sequence S F)
  check_and_update q human_sample robot_sample index = do
    let started = if is_empty q then add_from q human_sample else q
    r ← check_and_update_section q.update_policy started human_sample robot_sample index
    q' ← drop_empty r.1
    ok (r.0, q')

module _ {S F : Type 0} ⦃d : Doubles F⦄ ⦃k : SectionKind S F⦄ where
  -- The loop of `reset`, to the end or to the first section that lost a barrier.
  unfoldable pub reset_sections : List (Section S F) → S → ℕ → ℕ → ℕ → Result (List (Section S F))
  reset_sections [] human_sample lower upper sample_index = ok []
  reset_sections (s ∷ ss) human_sample lower upper sample_index =
      let rest = reset_sections ss human_sample lower upper sample_index in
      Reset.reset s human_sample lower upper sample_index >>= λ s'.
      (if ltb (Section.size s') (Section.size s) then ok [] else rest) >>= λ ss'.
      ok (if Section.is_empty s' then ss' else s' ∷ ss')

  unfoldable pub reset : Sequence S F → S → ℕ → ℕ → ℕ → Result (Sequence S F)
  reset q human_sample lower upper sample_index = do
    sections ← reset_sections q.sections human_sample lower upper sample_index
    ok (record q { sections = sections })
