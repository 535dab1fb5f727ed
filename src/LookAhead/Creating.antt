-- ===== src/LookAhead/Creating.antt =====
-- How the factories create jobs, from new input, from a job and for the modes that come next
-- (src/lookahead_job_factory.cpp). `return {{}}` is an empty list, since a handle has no default
-- constructor.
use opera.Prelude.{
  ℕ, zero, suc, ◌+◌, ◌-◌, min, List, [], ◌∷◌, Bool, true, false, not, ltb, if◌then◌else◌, none,
  some, Result, ok, err, undefined, assert, ◌>>=◌, ◌>>◌, length, is_nil,
}
use opera.Mode.{Mode}
use opera.ModeTrace.{
  ModeTrace, Likelihoods, has_looped, entry_at, ending_mode, forward_index, backward_index,
  push_back, reduce_between_indices,
}
use opera.ModeTrace
use opera.ModeTrace.Next.{merge, next_modes}
use opera.JobIdentifier.{LookAheadJobIdentifier}
use opera.JobPath.{LookAheadJobPath}
use opera.JobPath
use opera.JobRegistry.{Registry, try_register}
use opera.Bodies.Sample.{BodySegmentSample}
use opera.Sequence.{Sequence, UpdatePolicy, last_barrier, last_upper_trace_index}
use opera.Sequence
use opera.RobotHistory.{RobotStateHistory}
use opera.RobotHistory.Snapshot.{mode_trace}
use opera.LookAhead.{LookAheadJob, BarrierSequence, discard, reuse, discard_job, reuse_job}

pub data JobAwakeningResult : Type 0 where
  different unaffected completed uncomputable : JobAwakeningResult

pub data ReuseEquivalence : Type 0 where
  strong weak : ReuseEquivalence

unfoldable pub is_strong : ReuseEquivalence → Bool
is_strong strong = true
is_strong weak = false

abbrev pub Awakened : Type 0 → Type 0
Awakened F = List (LookAheadJob F × JobAwakeningResult)

module _ {F : Type 0} where
  -- The sequence of a reusing job; the cast of another one is a null pointer.
  unfoldable pub barrier_sequence : LookAheadJob F → Result (BarrierSequence F)
  barrier_sequence job = elim job.kind [ discard ↦ err undefined | reuse sequence ↦ ok sequence ]

  unfoldable pub create_discard_from :
      LookAheadJob F → ModeTrace F → LookAheadJobPath → Result (LookAheadJob F)
  create_discard_from job trace path =
      ok (discard_job job.id job.initial_time job.human_sample trace path)

  unfoldable pub create_reuse_from :
      LookAheadJob F → ModeTrace F → LookAheadJobPath → Result (LookAheadJob F)
  create_reuse_from job trace path = barrier_sequence job >>= λ sequence.
      ok (reuse_job job.id job.initial_time job.snapshot_time job.human_sample trace path sequence)

  unfoldable pub create_new_reuse :
      Registry
      → UpdatePolicy
      → LookAheadJobIdentifier
      → ℕ
      → BodySegmentSample F
      → ModeTrace F
      → LookAheadJobPath
      → Result (LookAheadJob F × Registry)
  create_new_reuse registry policy id initial_time human_sample trace path = do
    r ← try_register registry initial_time id path
    assert r.0
    ok (
      reuse_job id initial_time initial_time human_sample trace path (Sequence.construct policy),
      r.1,
    )

  -- The jobs that the registry does not have, after the registration of each.
  unfoldable pub register_jobs :
      Registry → ℕ → LookAheadJobIdentifier → List (LookAheadJob F) → Result (Awakened F × Registry)
  register_jobs registry time id [] = ok ([], registry)
  register_jobs registry time id (job ∷ jobs) =
      try_register registry time id job.path >>= λ (r : Bool × Registry).
      register_jobs r.1 time id jobs >>= λ (rest : Awakened F × Registry).
      ok (if r.0 then (job, different) ∷ rest.0 else rest.0, rest.1)

  -- The upper index of the reset under strong equivalence: below the last place of each mode that
  -- is gone through again, for the indexes from `i` on.
  unfoldable pub reset_upper : ℕ → ℕ → ModeTrace F → ℕ → Result ℕ
  reset_upper zero i trace upper = ok upper
  reset_upper (suc left) i trace upper = do
    e ← entry_at trace i
    found ← backward_index trace e.mode
    reset_upper left (i + 1) trace
        (elim found [ none ↦ upper | some b ↦ if ltb i b then min upper (b - 1) else upper ])

module _ {F : Type 0} ⦃l : Likelihoods F⦄ where
  -- The loop of `create_next`, with the next priority.
  unfoldable pub create_each :
      (LookAheadJob F → ModeTrace F → LookAheadJobPath → Result (LookAheadJob F))
      → LookAheadJob F
      → Bool
      → ℕ
      → List (Mode × F)
      → Result (List (LookAheadJob F))
  create_each create job branches priority [] = ok []
  create_each create job branches priority ((mode, probability) ∷ modes) = do
    trace ← push_back job.prediction_trace mode probability
    path ←
        if branches then JobPath.add job.path priority (ModeTrace.size trace - 1) else ok job.path
    next ← create job trace path
    rest ← create_each create job branches (priority + 1) modes
    ok (next ∷ rest)

  unfoldable pub create_next :
      (LookAheadJob F → ModeTrace F → LookAheadJobPath → Result (LookAheadJob F))
      → LookAheadJob F
      → RobotStateHistory F
      → Result (List (LookAheadJob F))
  create_next create job h = has_looped job.prediction_trace >>= λ looped. elim looped [
    | true ↦ ok []
    | false ↦ do
      past ← mode_trace h job.initial_time
      full_trace ← merge past job.prediction_trace
      modes ← next_modes full_trace
      assert (not (is_nil modes.0))
      create_each create job (ltb 1 (length modes.0)) 0 modes.0
  ]
