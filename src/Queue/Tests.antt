-- ===== src/Queue/Tests.antt =====
-- Two jobs, one thread that reserves and dequeues.
use opera.Prelude.{ℕ, ◌+◌, ◌≤◌, ◌≡◌, refl, [], ◌∷◌, ◌++◌, true, ok, arith, length}
use opera.Queue.{SynchronisedQueue, construct, enqueue, dequeue, reserve, can_reserve}
use opera.Queue.Workers.{Pool, idle, arrive, test, book, Reach, here, next}
use opera.Queue.Delivery.{dequeue-returns, Reach-arrived}

-- The states after two arrivals, the test and the reservation.
abbrev two_waiting : Pool ℕ
two_waiting = record idle {
  waiting = record { queue = 7 ∷ 8 ∷ []; num_reserved = 0 };
  arrived = 7 ∷ 8 ∷ [];
}

abbrev one_reserved : Pool ℕ
one_reserved = record two_waiting {
  waiting = record { queue = 7 ∷ 8 ∷ []; num_reserved = 1 };
  reserved = 1;
  num_processing = 1;
}

one_reserved-Reach : Reach one_reserved
unfolding construct enqueue reserve can_reserve
one_reserved-Reach =
    next {s = record two_waiting { tested = true; num_processing = 1 }}
      (next {s = two_waiting}
        (next
          {s = record idle {
            waiting = record { queue = 7 ∷ []; num_reserved = 0 };
            arrived = 7 ∷ [];
          }}
          (next here (arrive 7 refl)) (arrive 8 refl))
        (test refl refl refl))
      (book refl refl)

dequeue-returns_example :
    (e : ℕ) × (q : SynchronisedQueue ℕ) × (dequeue one_reserved.waiting ≡ ok (e, q))
dequeue-returns_example = dequeue-returns one_reserved one_reserved-Reach (omega arith)

Reach-arrived_example :
    (one_reserved.taken ++ one_reserved.waiting.queue ≡ one_reserved.arrived)
    × (one_reserved.waiting.num_reserved ≤ length one_reserved.waiting.queue)
    × (one_reserved.reserved + one_reserved.working ≤ one_reserved.num_processing)
Reach-arrived_example = Reach-arrived one_reserved one_reserved-Reach
