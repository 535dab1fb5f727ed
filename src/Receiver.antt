-- ===== src/Receiver.antt =====
-- RuntimeReceiver (include/runtime_io.hpp, src/runtime_io.cpp): what the runtime does with each
-- message. The registry and the queues that it shares with the working threads are part of its
-- state here; a handler runs as one step, as its mutex makes it. The default human, which is read
-- from a file, and `to_string` are parameters.
pub mod Jobs
pub mod Pairs
pub mod Present
mod Tests
use opera.Prelude.{
  ℕ, zero, suc, ◌+◌, ◌-◌, ◌*◌, ◌%◌, ◌^◌, List, [], ◌∷◌, ◌++◌, Bool, true, false, not, ◌&&◌, ◌||◌,
  ltb, if◌then◌else◌, Result, ok, err, ◌>>=◌, ◌>>◌, length, is_nil,
}
use opera.Prelude.Texts.{Text, text_eq}
use opera.Barrier.{sub64}
use opera.History
use opera.LookAhead.{LookAheadJob}
use opera.LookAhead.Factories.{Factory}
use opera.JobRegistry.{Registry}
use opera.BodyRegistry.{
  BodyRegistry, BodyPresentationMessage, HumanStateMessage, RobotStateMessage, contains, robot_ids,
  human_ids, insert, human_entry, robot_entry, human_history_size, latest_human_timestamp, remove,
}
use opera.Prelude.Maps
use opera.RobotHistory

-- HUMAN_RETENTION_TIMEOUT
abbrev pub human_retention_timeout : ℕ
human_retention_timeout = 10000

pub record HumanRobotIdPair : Type 0 where
  pub human : Text
  pub robot : Text

pub record RuntimeReceiver (F : Type 0) : Type 0 where
  pub factory : Factory
  pub pending_human_robot_pairs : List HumanRobotIdPair
  pub history_retention : ℕ
  pub history_purge_period : ℕ
  pub num_state_messages_received : ℕ
  pub oldest_history_time : ℕ
  pub registry : BodyRegistry F
  -- The job registry of the factory, and the elements of the two queues.
  pub job_registry : Registry
  pub waiting_jobs : List (LookAheadJob F)
  pub sleeping_jobs : List (LookAheadJob F)

-- std::find in the identifiers
unfoldable pub is_member : Text → List Text → Bool
is_member id [] = false
is_member id (j ∷ js) = text_eq j id || is_member id js

-- The loops that make pairs of the identifier of the message with those of the registry: the
-- first of a pair is always that of the message.
unfoldable pub pairs_with : Text → List Text → List HumanRobotIdPair
pairs_with id [] = []
pairs_with id (other ∷ others) = record { human = id; robot = other } ∷ pairs_with id others

unfoldable pub keep_pairs : List Text → List HumanRobotIdPair → List HumanRobotIdPair
keep_pairs removed [] = []
keep_pairs removed (p ∷ ps) =
    if not (is_member p.human removed) then p ∷ keep_pairs removed ps else keep_pairs removed ps

module _ {F : Type 0} where
  unfoldable pub num_pending_human_robot_pairs : RuntimeReceiver F → ℕ
  num_pending_human_robot_pairs s = length s.pending_human_robot_pairs

  -- The handler of a body presentation.
  unfoldable pub on_body_presentation :
      RuntimeReceiver F → BodyPresentationMessage F → Result (RuntimeReceiver F)
  on_body_presentation s msg =
      if not (contains s.registry msg.id)
      then (insert s.registry msg >>= λ registry. ok (record s {
        registry = registry;
        pending_human_robot_pairs =
            s.pending_human_robot_pairs
            ++ (if msg.is_human
                then pairs_with msg.id (robot_ids s.registry)
                else pairs_with msg.id (human_ids s.registry));
      }))
      else ok s

  -- `msg.timestamp() - earliest > 1000*(retention + purge period)`
  unfoldable pub is_too_old : RuntimeReceiver F → ℕ → ℕ → Bool
  is_too_old s timestamp earliest =
      ltb ((1000 * (s.history_retention + s.history_purge_period)) % 2 ^ 64)
        (sub64 timestamp earliest)

  -- `msg.timestamp() - retention*1000`
  unfoldable pub purge_time : RuntimeReceiver F → ℕ → ℕ
  purge_time s timestamp = sub64 timestamp ((s.history_retention * 1000) % 2 ^ 64)

  unfoldable pub remove_old_human_history :
      RuntimeReceiver F → Text → ℕ → Result (RuntimeReceiver F)
  remove_old_human_history s id timestamp = do
    e ← human_entry s.registry id
    earliest ← History.earliest_time e.history
    if not (is_too_old s timestamp earliest) then ok s else do
      let history = History.remove_older_than e.history (purge_time s timestamp)
      oldest ← History.earliest_time history
      ok (record s {
        registry = record s.registry {
          humans = Maps.assign s.registry.humans id (record e { history = history });
        };
        oldest_history_time = oldest;
      })

  -- `_remove_old_history` of a human message
  unfoldable pub remove_old_human_histories :
      RuntimeReceiver F → List Text → ℕ → Result (RuntimeReceiver F)
  remove_old_human_histories s [] timestamp = ok s
  remove_old_human_histories s (id ∷ ids) timestamp =
      remove_old_human_history s id timestamp >>= λ s'. remove_old_human_histories s' ids timestamp

  -- `_remove_old_history` of a robot message
  unfoldable pub remove_old_robot_history :
      RuntimeReceiver F → Text → ℕ → Result (RuntimeReceiver F)
  remove_old_robot_history s id timestamp = do
    e ← robot_entry s.registry id
    earliest ← RobotHistory.earliest_time e.history
    if not (is_too_old s timestamp earliest) then ok s else do
      history ← RobotHistory.remove_older_than e.history (purge_time s timestamp)
      oldest ← RobotHistory.earliest_time history
      ok (record s {
        registry = record s.registry {
          robots = Maps.assign s.registry.robots id (record e { history = history });
        };
        oldest_history_time = oldest;
      })

  -- Whether nothing was received of the human for too long.
  unfoldable pub is_unresponding : BodyRegistry F → ℕ → Text → Result Bool
  is_unresponding r latest_msg_timestamp hid = do
    count ← human_history_size r hid
    if not (ltb 0 count) then ok false else do
      latest ← latest_human_timestamp r hid
      ok (
          ltb latest latest_msg_timestamp
          && ltb human_retention_timeout (latest_msg_timestamp - latest))

  -- The loop that removes them: the registry, and the identifiers that are removed.
  unfoldable pub remove_loop : BodyRegistry F → ℕ → List Text → Result (BodyRegistry F × List Text)
  remove_loop r latest_msg_timestamp [] = ok (r, [])
  remove_loop r latest_msg_timestamp (hid ∷ hids) =
      is_unresponding r latest_msg_timestamp hid >>= λ gone.
      (if gone then remove r hid else ok r) >>= λ r'.
      remove_loop r' latest_msg_timestamp hids >>= λ (rest : BodyRegistry F × List Text).
      ok (rest.0, if gone then hid ∷ rest.1 else rest.1)

  -- The loops that empty the queue of sleeping jobs and fill it again.
  unfoldable pub keep_jobs : List Text → List (LookAheadJob F) → List (LookAheadJob F)
  keep_jobs removed [] = []
  keep_jobs removed (job ∷ jobs) =
      if not (is_member job.id.human removed)
      then job ∷ keep_jobs removed jobs
      else keep_jobs removed jobs

  unfoldable pub remove_unresponding_humans : RuntimeReceiver F → ℕ → Result (RuntimeReceiver F)
  remove_unresponding_humans s latest_msg_timestamp = do
    r ← remove_loop s.registry latest_msg_timestamp (human_ids s.registry)
    ok (record s {
      registry = r.0;
      pending_human_robot_pairs =
          if is_nil r.1
          then s.pending_human_robot_pairs
          else keep_pairs r.1 s.pending_human_robot_pairs;
      sleeping_jobs = if is_nil r.1 then s.sleeping_jobs else keep_jobs r.1 s.sleeping_jobs;
    })
