-- ===== src/Queue/Delivery.antt =====
-- What holds in every state that the working threads reach.
use opera.Prelude.{
  ℕ, zero, suc, ok_pair, ◌+◌, ◌-◌, ◌≤◌, ◌<◌, ◌≡◌, refl, sym, ap, ◌∙◌, List, [], ◌∷◌, ◌++◌, Bool,
  true, false, Result, ok, err, precondition, arith, length, length-append, ltb→lt, lt→ltb, front,
  drop,
}
use opera.Queue.{SynchronisedQueue, construct, enqueue, dequeue, reserve, can_reserve}
use opera.Queue.Workers.{Pool, Step, arrive, test, book, take, finish, leave, Reach, here, next}

abbrev pending : Bool → ℕ
pending true = 1
pending false = 0

-- No more slots are reserved than jobs wait, counting a test that succeeded; each thread that has
-- reserved has its slot; no job is lost and none overtakes another.
record IsConsistent {T : Type 0} (s : Pool T) : Type 0 where
  covered : s.waiting.num_reserved + pending s.tested ≤ length s.waiting.queue
  slots : s.reserved ≤ s.waiting.num_reserved
  in_order : s.taken ++ s.waiting.queue ≡ s.arrived
  counted : pending s.tested + s.reserved + s.working ≤ s.num_processing

module _ {T : Type 0} where
  append_assoc : (xs ys zs : List T) → (xs ++ ys) ++ zs ≡ xs ++ (ys ++ zs)
  append_assoc [] ys zs = refl
  append_assoc (x ∷ xs) ys zs = ap (◌∷◌ x) (append_assoc xs ys zs)

  front-ok : (xs : List T) → 0 < length xs → (x : T) × (front xs ≡ ok x)
  front-ok [] h = absurd (omega arith)
  front-ok (x ∷ xs) h = (x, refl)

  precondition_ne :
      (r : T × SynchronisedQueue T)
      → ◌≡◌ {A = Result (T × SynchronisedQueue T)} (err precondition) (ok r)
      → ⊥
  precondition_ne r h = cc

  -- What a dequeue that returns does.
  dequeue-parts :
      (xs : List T) (n : ℕ) (q' : SynchronisedQueue T) (e : T)
      → dequeue (record { queue = xs; num_reserved = n }) ≡ ok (e, q')
      → (xs ≡ e ∷ q'.queue) × (n ≡ q'.num_reserved + 1)
  unfolding dequeue
  dequeue-parts [] n q' e h = cc
  dequeue-parts (x ∷ xs) zero q' e h =
      absurd (precondition_ne (e, q') (rw (lt→ltb 0 (suc (length xs)) (omega arith)) at h))
  dequeue-parts (x ∷ xs) (suc n) q' e h =
      let (f, g) =
        ok_pair x e (record { queue = xs; num_reserved = suc n - 1 }) q'
          (rw (lt→ltb 0 (suc (length xs)) (omega arith), lt→ltb 0 (suc n) (omega arith)) at h) in
      (cc, omega (arith, ap (λ r. r.num_reserved) g))

  dequeue-front :
      (q q' : SynchronisedQueue T) (e : T)
      → dequeue q ≡ ok (e, q')
      → (q.queue ≡ e ∷ q'.queue) × (q.num_reserved ≡ q'.num_reserved + 1)
  dequeue-front q q' e h = dequeue-parts q.queue q.num_reserved q' e h

  Step-IsConsistent : {s s' : Pool T} → Step s s' → IsConsistent s → IsConsistent s'
  unfolding enqueue reserve can_reserve
  Step-IsConsistent {s} (arrive e f) c = rw f (record {
    covered = omega (arith, c.covered, length-append s.waiting.queue (e ∷ []));
    slots = c.slots;
    in_order =
        sym (append_assoc s.taken s.waiting.queue (e ∷ [])) ∙ ap (λ l. l ++ e ∷ []) c.in_order;
    counted = c.counted;
  })
  Step-IsConsistent {s} (test t can f) c = rw f (record {
    covered = omega (arith, c.covered, ltb→lt s.waiting.num_reserved (length s.waiting.queue) can);
    slots = c.slots;
    in_order = c.in_order;
    counted = omega (arith, c.counted, ap pending t);
  })
  Step-IsConsistent {s} (book t f) c = rw f (record {
    covered = omega (arith, c.covered, ap pending t);
    slots = omega (arith, c.slots);
    in_order = c.in_order;
    counted = omega (arith, c.counted, ap pending t);
  })
  Step-IsConsistent {s} (take e q some_reserved d f) c =
      let (g, r) = dequeue-front s.waiting q e d in
      rw f (record {
        covered = omega (arith, c.covered, r, ap length g);
        slots = omega (arith, c.slots);
        in_order =
            append_assoc s.taken (e ∷ []) q.queue ∙ ap (λ l. s.taken ++ l) (sym g) ∙ c.in_order;
        counted = omega (arith, c.counted);
      })
  Step-IsConsistent {s} (finish some_working f) c = rw f (record {
    covered = c.covered;
    slots = c.slots;
    in_order = c.in_order;
    counted = omega (arith, c.counted);
  })
  Step-IsConsistent {s} (leave some_reserved f) c = rw f (record {
    covered = c.covered;
    slots = omega (arith, c.slots);
    in_order = c.in_order;
    counted = omega (arith, c.counted);
  })

  Reach-IsConsistent : {s : Pool T} → Reach s → IsConsistent s
  unfolding construct
  Reach-IsConsistent here = record {
    covered = omega arith;
    slots = omega arith;
    in_order = refl;
    counted = omega arith;
  }
  Reach-IsConsistent (next r st) = Step-IsConsistent st (Reach-IsConsistent r)

-- In every state that the threads reach, under every interleaving of their steps with arriving jobs:
-- where a thread has reserved, dequeuing throws nothing.
pub dequeue-returns :
    {T : Type 0} (s : Pool T)
    → Reach s
    → 0 < s.reserved
    → (e : T) × (q : SynchronisedQueue T) × (dequeue s.waiting ≡ ok (e, q))
unfolding dequeue
dequeue-returns s r some_reserved =
    let c : IsConsistent s = Reach-IsConsistent r in
    let (e, f) = front-ok s.waiting.queue (omega (arith, c.covered, c.slots)) in
    (
      e,
      record { queue = drop 1 s.waiting.queue; num_reserved = s.waiting.num_reserved - 1 },
      rw
          (
            lt→ltb 0 (length s.waiting.queue) (omega (arith, c.covered, c.slots)),
            lt→ltb 0 s.waiting.num_reserved (omega (arith, c.slots)),
            f,
          )
          refl,
    )

-- In every such state the jobs that were taken, followed by those that wait, are the jobs that have
-- arrived, in this order; no more slots are reserved than jobs wait; and the threads that have
-- reserved or work on a job are at most those that are counted as processing.
pub Reach-arrived :
    {T : Type 0} (s : Pool T)
    → Reach s
    → (s.taken ++ s.waiting.queue ≡ s.arrived)
      × (s.waiting.num_reserved ≤ length s.waiting.queue)
      × (s.reserved + s.working ≤ s.num_processing)
Reach-arrived s r =
    let c : IsConsistent s = Reach-IsConsistent r in
    (c.in_order, omega (arith, c.covered), omega (arith, c.counted))
