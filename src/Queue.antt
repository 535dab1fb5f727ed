-- ===== src/Queue.antt =====
-- SynchronisedQueue (include/synchronised_queue.hpp): each call is one step, as its mutex makes it.
pub mod Workers
pub mod Delivery
mod Tests
use opera.Prelude.{
  ℕ, ◌+◌, ◌-◌, List, [], ◌∷◌, ◌++◌, Bool, ltb, Result, ok, require, ◌>>=◌, ◌>>◌, length, front,
  drop,
}

pub record SynchronisedQueue (T : Type 0) : Type 0 where
  pub queue : List T
  pub num_reserved : ℕ

module _ {T : Type 0} where
  unfoldable pub construct : SynchronisedQueue T
  construct = record { queue = []; num_reserved = 0 }

  unfoldable pub enqueue : SynchronisedQueue T → T → SynchronisedQueue T
  enqueue q e = record q { queue = q.queue ++ e ∷ [] }

  unfoldable pub dequeue : SynchronisedQueue T → Result (T × SynchronisedQueue T)
  dequeue q = do
    require (ltb 0 (length q.queue))
    require (ltb 0 q.num_reserved)
    result ← front q.queue
    ok (result, record { queue = drop 1 q.queue; num_reserved = q.num_reserved - 1 })

  unfoldable pub reserve : SynchronisedQueue T → SynchronisedQueue T
  reserve q = record q { num_reserved = q.num_reserved + 1 }

  unfoldable pub size : SynchronisedQueue T → ℕ
  size q = length q.queue

  unfoldable pub can_reserve : SynchronisedQueue T → Bool
  can_reserve q = ltb q.num_reserved (length q.queue)
