-- ===== src/Receiver/Tests.antt =====
-- Runs of the receiver: a robot that is presented after a human, and a human that is silent.
use opera.Prelude.{
  ◌≡◌, refl, [], ◌∷◌, true, false, not, Result, ok, err, out_of_range, All, none, arith,
}
use opera.Prelude.Texts.{Text, bytes, text_eq, text_lt}
use opera.Prelude.Millimetres.{Millimetres, mm, millimetres, whole_arithmetic}
use opera.ModeTrace.{Likelihoods}
use opera.Geometry.{point}
use opera.Bodies.{construct, construct_robot, construct_loop, insert_id, contains_id, num_segments}
use opera.Bodies.Sample.{BodySegmentSample}
use opera.History
use opera.RobotHistory
use opera.LookAhead.{LookAheadJob, discard}
use opera.LookAhead.Factories.{discard_factory}
use opera.Prelude.Maps.{has_key, value_at, insert_key, keys, erase}
use opera.BodyRegistry.{
  BodyPresentationMessage, HumanRegistryEntry, contains, human_ids, insert, insert_robot, remove,
  human_entry, human_history, human_history_size, latest_human_timestamp, latest_timestamp,
}
use opera.BodyRegistry.Contents.{IsSeparate}
use opera.Receiver.{
  RuntimeReceiver, HumanRobotIdPair, pairs_with, is_member, is_unresponding, keep_pairs, keep_jobs,
  on_body_presentation, remove_loop, remove_unresponding_humans,
}
use opera.Receiver.Jobs.{promote_pairs_to_jobs}
use opera.Receiver.Pairs.{promote_pairs_to_jobs-swapped}
use opera.Receiver.Present.{Known, remove_unresponding_humans-Known}

instance abbrev whole_likelihoods : Likelihoods Millimetres
whole_likelihoods = record {
  one = mm 1;
  mul = λ x y. whole_arithmetic.mul x y;
  ne = λ x y. not (millimetres.eq x y);
  add = λ x y. whole_arithmetic.add x y;
  div = λ x n. whole_arithmetic.div x (mm n);
}

abbrev value_of : {A : Type 0} → Result A → A → A
value_of (ok x) y = x
value_of (err e) y = y

abbrev person : HumanRegistryEntry Millimetres
person = record {
  body = record { id = bytes "h1"; keypoint_ids = []; segments = [] };
  history = record { instances = record { timestamp = 1000; samples = [] } ∷ [] };
}

abbrev arm : BodyPresentationMessage Millimetres
arm = record {
  id = bytes "r1";
  is_human = false;
  message_frequency = 20;
  segment_pairs = (bytes "0", bytes "1") ∷ [];
  thicknesses = mm 5 ∷ [];
}

abbrev with_person : RuntimeReceiver Millimetres
with_person = record {
  factory = discard_factory;
  pending_human_robot_pairs = [];
  history_retention = 30;
  history_purge_period = 10;
  num_state_messages_received = 1;
  oldest_history_time = 0;
  registry = record { humans = (bytes "h1", person) ∷ []; robots = [] };
  job_registry = [];
  waiting_jobs = [];
  sleeping_jobs = [];
}

abbrev with_both : RuntimeReceiver Millimetres
with_both = value_of (on_body_presentation with_person arm) with_person

person-IsSeparate : IsSeparate with_person.registry
unfolding IsSeparate has_key
person-IsSeparate j = ground arith

arm-new : contains with_person.registry arm.id ≡ false
unfolding contains has_key text_eq
arm-new = refl

person-id : human_ids with_person.registry ≡ bytes "h1" ∷ []
unfolding human_ids keys
person-id = refl

arm-presented : on_body_presentation with_person arm ≡ ok with_both
unfolding on_body_presentation contains has_key insert insert_robot construct_robot construct
    construct_loop insert_id contains_id insert_key text_eq text_lt RobotHistory.construct
    RobotHistory.empty_buffer num_segments pairs_with human_ids keys
arm-presented = refl

promote_pairs_to_jobs-swapped_example : promote_pairs_to_jobs with_both ≡ err out_of_range
promote_pairs_to_jobs-swapped_example =
    promote_pairs_to_jobs-swapped with_person with_both arm (bytes "h1") [] person-IsSeparate refl
      refl arm-new person-id arm-presented

abbrev sample : BodySegmentSample Millimetres
sample = record {
  segment = record { index = 0; head_id = bytes "0"; tail_id = bytes "1"; thickness = mm 1 };
  empty = true;
  head_bounds = record { xl = mm 0; xu = mm 0; yl = mm 0; yu = mm 0; zl = mm 0; zu = mm 0 };
  tail_bounds = record { xl = mm 0; xu = mm 0; yl = mm 0; yu = mm 0; zl = mm 0; zu = mm 0 };
  head_centre = point (mm 0) (mm 0) (mm 0);
  tail_centre = point (mm 0) (mm 0) (mm 0);
  radius = mm 0;
  bb = none;
  bs = none;
}

abbrev sleeper : Text → LookAheadJob Millimetres
sleeper human = record {
  id = record { human = human; human_segment = 0; robot = bytes "r1"; robot_segment = 0 };
  initial_time = 900;
  snapshot_time = 900;
  human_sample = sample;
  prediction_trace = record { entries = []; next_modes = [] };
  path = record { path = [] };
  kind = discard;
}

abbrev active : HumanRegistryEntry Millimetres
active = record person {
  history = record { instances = record { timestamp = 19000; samples = [] } ∷ [] };
}

abbrev with_sleepers : RuntimeReceiver Millimetres
with_sleepers = record with_person {
  registry = record { humans = (bytes "h1", person) ∷ (bytes "h2", active) ∷ []; robots = [] };
  pending_human_robot_pairs = record { human = bytes "h1"; robot = bytes "r1" } ∷ [];
  sleeping_jobs = sleeper (bytes "h1") ∷ sleeper (bytes "h2") ∷ [];
}

abbrev cleaned : RuntimeReceiver Millimetres
cleaned = record with_sleepers {
  registry = record { humans = (bytes "h2", active) ∷ []; robots = [] };
  pending_human_robot_pairs = [];
  sleeping_jobs = sleeper (bytes "h2") ∷ [];
}

sleepers-cleaned : remove_unresponding_humans with_sleepers 20000 ≡ ok cleaned
unfolding remove_unresponding_humans remove_loop is_unresponding human_history_size human_history
    human_entry value_at contains has_key latest_human_timestamp latest_timestamp History.size
    History.at_index remove erase keep_pairs keep_jobs is_member human_ids keys text_eq
sleepers-cleaned = refl

sleepers-Known :
    All
      (λ (job : LookAheadJob Millimetres). Known with_sleepers.registry job.id.human)
      with_sleepers.sleeping_jobs
unfolding Known has_key text_eq
sleepers-Known = (refl, (refl, tt))

pairs-Known :
    All
      (λ (p : HumanRobotIdPair). Known with_sleepers.registry p.human)
      with_sleepers.pending_human_robot_pairs
unfolding Known has_key text_eq
pairs-Known = (refl, tt)

remove_unresponding_humans-Known_example :
    All
      (λ (job : LookAheadJob Millimetres). Known cleaned.registry job.id.human)
      cleaned.sleeping_jobs
    × All
        (λ (p : HumanRobotIdPair). Known cleaned.registry p.human)
        cleaned.pending_human_robot_pairs
remove_unresponding_humans-Known_example =
    remove_unresponding_humans-Known with_sleepers cleaned 20000 sleepers-Known pairs-Known
      sleepers-cleaned
