-- ===== src/LookAhead.antt =====
-- Look-ahead jobs (include/lookahead_job.hpp, src/lookahead_job.cpp): the search of a robot's
-- predicted samples for one that meets a human sample. An `int` that is -1 for no index is an
-- Option; indexes are taken to fit an `int`.
pub mod Searching
pub mod Earliest
pub mod Creating
pub mod Awakening
pub mod Factories
mod Tests
use opera.Prelude.{ℕ, Option, none, some}
use opera.JobIdentifier.{LookAheadJobIdentifier}
use opera.JobPath.{LookAheadJobPath}
use opera.ModeTrace.{ModeTrace}
use opera.Bodies.Sample.{BodySegmentSample}
use opera.Sequence.{Sequence}

abbrev pub BarrierSequence : Type 0 → Type 0
BarrierSequence F = Sequence (BodySegmentSample F) F

-- The two classes of jobs; a reusing one has its barrier sequence.
pub data JobKind (F : Type 0) : Type 0 where
  discard : JobKind F
  reuse : BarrierSequence F → JobKind F

pub record LookAheadJob (F : Type 0) : Type 0 where
  pub id : LookAheadJobIdentifier
  pub initial_time : ℕ
  pub snapshot_time : ℕ
  pub human_sample : BodySegmentSample F
  pub prediction_trace : ModeTrace F
  pub path : LookAheadJobPath
  pub kind : JobKind F

module _ {F : Type 0} where
  -- The constructor of a discarding job, which is its own snapshot's time.
  unfoldable pub discard_job :
      LookAheadJobIdentifier
      → ℕ
      → BodySegmentSample F
      → ModeTrace F
      → LookAheadJobPath
      → LookAheadJob F
  discard_job id initial_time human_sample trace path = record {
    id = id;
    initial_time = initial_time;
    snapshot_time = initial_time;
    human_sample = human_sample;
    prediction_trace = trace;
    path = path;
    kind = discard;
  }

  unfoldable pub reuse_job :
      LookAheadJobIdentifier
      → ℕ
      → ℕ
      → BodySegmentSample F
      → ModeTrace F
      → LookAheadJobPath
      → BarrierSequence F
      → LookAheadJob F
  reuse_job id initial_time snapshot_time human_sample trace path sequence = record {
    id = id;
    initial_time = initial_time;
    snapshot_time = snapshot_time;
    human_sample = human_sample;
    prediction_trace = trace;
    path = path;
    kind = reuse sequence;
  }
