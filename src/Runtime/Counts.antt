-- ===== src/Runtime/Counts.antt =====
-- The counts of the runtime and the notifications that it sends (src/runtime.cpp).
use opera.Prelude.{
  ℕ, ◌+◌, ◌≤◌, ◌<◌, ◌≡◌, List, [], ◌∷◌, Bool, true, false, Option, none, some, Result, ok, length,
  arith, >>=-eq-ok, ok-eq, subst, length-append, if◌then◌else◌,
}
use opera.Prelude.Doubles.{Doubles}
use opera.Prelude.Arithmetic.{Arithmetic}
use opera.Prelude.Texts.{Text}
use opera.ModeTrace.{Likelihoods}
use opera.Bodies
use opera.RobotHistory.{RobotStateHistory}
use opera.LookAhead.{LookAheadJob}
use opera.LookAhead.Searching.{earliest_collision_index}
use opera.LookAhead.Factories.{create_next_jobs}
use opera.BodyRegistry.{robot_history, get_human_keypoint_ids, has_human}
use opera.BodyRegistry
use opera.Runtime.Processing.{
  Runtime, CollisionNotificationMessage, notification, samples_between_modes, enqueue_next, collide,
  go_on, conclude, found, process_job, process_first, process_one_working_job,
}

module _ {F : Type 0} ⦃d : Doubles F⦄ ⦃a : Arithmetic F⦄ ⦃l : Likelihoods F⦄ (round : F → ℕ) where
  -- As many notifications as collisions were counted, no more than jobs were completed, no more
  -- than were processed.
  unfoldable pub Counted : Runtime F → Type 0
  Counted s =
      (length s.notifications ≡ s.num_collisions)
      × (s.num_collisions ≤ s.num_completed)
      × (s.num_completed ≤ s.num_processed)

  -- The counts of a runtime whose job is processed and not completed.
  unfoldable pub InProgress : Runtime F → Type 0
  InProgress s =
      (length s.notifications ≡ s.num_collisions)
      × (s.num_collisions ≤ s.num_completed)
      × (s.num_completed < s.num_processed)

  if_fair :
      (b : Bool) (x : Result (Runtime F)) (s s' : Runtime F)
      → (x ≡ ok s' → Counted s')
      → Counted s
      → (if b then x else ok s) ≡ ok s'
      → Counted s'
  if_fair true x s s' h k e = h e
  if_fair false x s s' h k e = subst Counted (ok-eq _ _ e) k

  collide-Counted :
      (s : Runtime F) (job : LookAheadJob F) (msg : CollisionNotificationMessage F)
      → InProgress s
      → Counted (collide round s job msg)
  unfolding Counted InProgress collide
  collide-Counted s job msg (h, k, m) =
      (omega (arith, length-append s.notifications (msg ∷ [])), omega arith, omega arith)

  go_on-Counted :
      (s s' : Runtime F) (job : LookAheadJob F) (next_jobs : List (LookAheadJob F))
      → InProgress s
      → go_on round s job next_jobs ≡ ok s'
      → Counted s'
  unfolding Counted InProgress go_on
  go_on-Counted s s' job [] (h, k, m) e = subst Counted (ok-eq _ _ e) (h, omega arith, omega arith)
  go_on-Counted s s' job (nj ∷ njs) (h, k, m) e =
      let (receiver, first, rest) = >>=-eq-ok (enqueue_next round s.receiver job (nj ∷ njs)) _ e in
      subst Counted (ok-eq _ _ rest) (h, k, omega arith)

  conclude-Counted :
      (s s' : Runtime F) (h : RobotStateHistory F) (robot : Bodies.Robot F)
      (human_segment : Text × Text) (i : Option ℕ) (job : LookAheadJob F)
      → InProgress s
      → conclude round s h robot human_segment i job ≡ ok s'
      → Counted s'
  unfolding conclude Counted InProgress
  conclude-Counted s s' h robot human_segment (some i) job p e =
      let (between, e1, r1) = >>=-eq-ok (samples_between_modes round job h i) _ e in
      let (msg, e2, r2) = >>=-eq-ok (notification round robot job human_segment between) _ r1 in
      subst Counted (ok-eq _ _ r2) (collide-Counted s job msg p)
  conclude-Counted s s' h robot human_segment none job p e =
      if_fair (has_human s.receiver.registry job.id.human) _ s s'
        (λ e1.
          let (next_jobs, e2, r2) = >>=-eq-ok (create_next_jobs s.receiver.factory job h) _ e1 in
          go_on-Counted s s' job next_jobs p r2)
        (p.0, p.1, let m = p.2 in omega arith) e

  found-Counted :
      (s s' : Runtime F) (job : LookAheadJob F) (h : RobotStateHistory F) (b : Bool)
      (human_segment : Text × Text)
      → Counted s
      → found round s job h b human_segment ≡ ok s'
      → Counted s'
  unfolding found Counted InProgress
  found-Counted s s' job h false human_segment c e = subst Counted (ok-eq _ _ e) c
  found-Counted s s' job h true human_segment (c, k, m) e =
      let (robot, e1, r1) = >>=-eq-ok (BodyRegistry.robot s.receiver.registry job.id.robot) _ e in
      let (r, e2, r2) = >>=-eq-ok (earliest_collision_index job h) _ r1 in
      conclude-Counted (record s { num_processed = s.num_processed + 1 }) s' h robot human_segment
        r.0 r.1 (c, k, omega arith) r2

  process_job-Counted :
      (s s' : Runtime F) (job : LookAheadJob F)
      → Counted s
      → process_job round s job ≡ ok s'
      → Counted s'
  unfolding process_job
  process_job-Counted s s' job c e =
      let (h, e1, r1) = >>=-eq-ok (robot_history s.receiver.registry job.id.robot) _ e in
      let (human, e2, r2) =
        >>=-eq-ok (get_human_keypoint_ids s.receiver.registry job.id.human job.id.human_segment) _
          r1 in
      found-Counted s s' job h human.0 human.1 c r2

  process_first-Counted :
      (s s' : Runtime F) (jobs : List (LookAheadJob F))
      → Counted s
      → process_first round s jobs ≡ ok s'
      → Counted s'
  unfolding process_first Counted
  process_first-Counted s s' [] c e = absurd (cc)
  process_first-Counted s s' (job ∷ jobs) c e =
      process_job-Counted (record s { receiver = record s.receiver { waiting_jobs = jobs } }) s' job
        c e

  -- A thread that processes a job without an exception keeps the counts: as many notifications as
  -- collisions were counted, no more than jobs were completed, no more than were processed.
  pub process_one_working_job-Counted :
      (s s' : Runtime F) → Counted s → process_one_working_job round s ≡ ok s' → Counted s'
  unfolding process_one_working_job
  process_one_working_job-Counted s s' c e = process_first-Counted s s' s.receiver.waiting_jobs c e
