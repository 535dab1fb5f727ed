-- ===== src/Queue/Workers.antt =====
-- The working threads of the constructor of Runtime (src/runtime.cpp) on the queue of waiting jobs.
-- A thread tests and reserves under the mutex of the availability, which the dequeuing threads and
-- those that enqueue do not hold: the test and the reservation are two steps.
use opera.Prelude.{ℕ, ◌+◌, ◌-◌, ◌<◌, ◌≡◌, List, [], ◌∷◌, ◌++◌, Bool, true, false, ok}
use opera.Queue.{SynchronisedQueue, construct, enqueue, dequeue, reserve, can_reserve}

-- The queue with what the threads hold, and the jobs in the order in which they came and went.
pub record Pool (T : Type 0) : Type 0 where
  pub waiting : SynchronisedQueue T
  -- A thread has seen that it can reserve, and has not done so.
  pub tested : Bool
  -- The threads that have reserved and not dequeued.
  pub reserved : ℕ
  -- The threads that work on a job.
  pub working : ℕ
  -- `_num_processing`
  pub num_processing : ℕ
  pub arrived : List T
  pub taken : List T

abbrev pub idle : {T : Type 0} → Pool T
idle = record {
  waiting = construct;
  tested = false;
  reserved = 0;
  working = 0;
  num_processing = 0;
  arrived = [];
  taken = [];
}

-- One step of a thread, or of whoever enqueues a job.
pub data Step {T : Type 0} (s s' : Pool T) : Type 0 where
  arrive :
      (e : T)
      → s' ≡ record s { waiting = enqueue s.waiting e; arrived = s.arrived ++ e ∷ [] }
      → Step s s'
  test :
      s.tested ≡ false
      → can_reserve s.waiting ≡ true
      → s' ≡ record s { tested = true; num_processing = s.num_processing + 1 }
      → Step s s'
  book :
      s.tested ≡ true
      → s' ≡ record s { tested = false; waiting = reserve s.waiting; reserved = s.reserved + 1 }
      → Step s s'
  take :
      (e : T) (q : SynchronisedQueue T)
      → 0 < s.reserved
      → dequeue s.waiting ≡ ok (e, q)
      → s' ≡ record s {
        waiting = q;
        reserved = s.reserved - 1;
        working = s.working + 1;
        taken = s.taken ++ e ∷ [];
      }
      → Step s s'
  finish :
      0 < s.working
      → s' ≡ record s { working = s.working - 1; num_processing = s.num_processing - 1 }
      → Step s s'
  -- A thread that has reserved returns, since the runtime is being stopped.
  leave : 0 < s.reserved → s' ≡ record s { reserved = s.reserved - 1 } → Step s s'

pub data Reach {T : Type 0} : Pool T → Type 0 where
  here : Reach idle
  next : {s s' : Pool T} → Reach s → Step s s' → Reach s'
