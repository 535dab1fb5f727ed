-- ===== src/LookAhead/Factories.antt =====
-- The factories of look-ahead jobs as one type (include/lookahead_job_factory.hpp,
-- src/lookahead_job_factory.cpp), whose operations are those of its kind.
use opera.Prelude.{ℕ, List, Bool, false, Result, ok, ◌>>=◌}
use opera.Prelude.Doubles.{Doubles}
use opera.Prelude.Arithmetic.{Arithmetic}
use opera.ModeTrace.{ModeTrace, Likelihoods}
use opera.JobIdentifier.{LookAheadJobIdentifier}
use opera.JobPath.{LookAheadJobPath}
use opera.JobRegistry.{Registry, has_registered}
use opera.Bodies.Sample.{BodySegmentSample}
use opera.Sequence.{UpdatePolicy}
use opera.RobotHistory.{RobotStateHistory}
use opera.LookAhead.{LookAheadJob, discard_job}
use opera.LookAhead.Creating.{
  ReuseEquivalence, Awakened, create_discard_from, create_reuse_from, create_new_reuse, create_next,
}
use opera.LookAhead.Awakening.{awaken_discard, awaken_reuse}

-- The two classes of factories.
pub data Factory : Type 0 where
  discard_factory : Factory
  reuse_factory : UpdatePolicy → ReuseEquivalence → Factory

module _ {F : Type 0} where
  unfoldable pub create_new :
      Factory
      → Registry
      → LookAheadJobIdentifier
      → ℕ
      → BodySegmentSample F
      → ModeTrace F
      → LookAheadJobPath
      → Result (LookAheadJob F × Registry)
  create_new discard_factory registry id initial_time human_sample trace path =
      ok (discard_job id initial_time human_sample trace path, registry)
  create_new (reuse_factory policy equivalence) registry id initial_time human_sample trace path =
      create_new_reuse registry policy id initial_time human_sample trace path

unfoldable pub factory_has_registered :
    Factory → Registry → ℕ → LookAheadJobIdentifier → LookAheadJobPath → Result Bool
factory_has_registered discard_factory registry timestamp id path = ok false
factory_has_registered (reuse_factory policy equivalence) registry timestamp id path =
    has_registered registry timestamp id path

module _ {F : Type 0} ⦃d : Doubles F⦄ ⦃a : Arithmetic F⦄ ⦃l : Likelihoods F⦄ where
  unfoldable pub create_next_jobs :
      Factory → LookAheadJob F → RobotStateHistory F → Result (List (LookAheadJob F))
  create_next_jobs discard_factory job h = create_next create_discard_from job h
  create_next_jobs (reuse_factory policy equivalence) job h = create_next create_reuse_from job h

  unfoldable pub awaken :
      Factory
      → Registry
      → LookAheadJob F
      → ℕ
      → BodySegmentSample F
      → RobotStateHistory F
      → Result (Awakened F × Registry)
  awaken discard_factory registry job time human_sample h =
      awaken_discard job time human_sample h >>= λ woken. ok (woken, registry)
  awaken (reuse_factory policy equivalence) registry job time human_sample h =
      awaken_reuse registry equivalence job time human_sample h
