-- ===== src/Receiver/Present.antt =====
-- The sleeping jobs and pending pairs are those of humans that the registry has
-- (src/runtime_io.cpp).
use opera.Prelude.{
  ℕ, ◌≡◌, refl, sym, ap, subst, ◌∙◌, inl, inr, List, [], ◌∷◌, Bool, true, false, ◌&&◌, Bool-cases,
  if◌then◌else◌, Result, Error, ok, err, >>=-eq-ok, ok-eq, arith, All, All-map, is_nil,
}
use opera.Prelude.Texts.{Text, text_eq, text_eq_sound}
use opera.LookAhead.{LookAheadJob}
use opera.Prelude.Maps.{has_key, erase}
use opera.BodyRegistry.{BodyRegistry, human_ids, remove}
use opera.Receiver.{
  RuntimeReceiver, HumanRobotIdPair, is_member, is_unresponding, remove_loop, keep_pairs, keep_jobs,
  remove_unresponding_humans,
}

text_eq-first : (k i j : Text) → text_eq k i ≡ true → text_eq k j ≡ text_eq i j
text_eq-first k i j h = ap (λ t. text_eq t j) (text_eq_sound k i h)

has_key-erase :
    {V : Type 0} (es : List (Text × V)) (id j : Text)
    → text_eq id j ≡ false
    → has_key (erase es id) j ≡ has_key es j
unfolding has_key erase
has_key-erase [] id j h = refl
has_key-erase ((k, v) ∷ es) id j h =
    ground (arith, has_key-erase es id j h, text_eq-first k id j, h)

no_result : {A P : Type 0} (why : Error) (x : A) → ◌≡◌ {A = Result A} (err why) (ok x) → P
no_result why x h = cc

listed_parts :
    (z : Bool) (id j : Text) (ids : List Text)
    → is_member j (if z then id ∷ ids else ids) ≡ false
    → (z && text_eq id j ≡ false) × (is_member j ids ≡ false)
unfolding is_member
listed_parts true id j ids h = (ground (arith, h), ground (arith, h))
listed_parts false id j ids h = (refl, h)

module _ {F : Type 0} where
  -- The registry has the human.
  unfoldable pub Known : BodyRegistry F → Text → Type 0
  Known r id = has_key r.humans id ≡ true

  remove-has_key :
      (r r' : BodyRegistry F) (id j : Text)
      → remove r id ≡ ok r'
      → text_eq id j ≡ false
      → has_key r'.humans j ≡ has_key r.humans j
  unfolding remove
  remove-has_key r r' id j e h = elim (Bool-cases (has_key r.humans id)) [
    | inl k ↦
        let same = ok-eq _ r' (rw k at e) in
        subst (λ (x : BodyRegistry F). has_key x.humans j ≡ has_key r.humans j) same
          (has_key-erase r.humans id j h)
    | inr k ↦ elim (Bool-cases (has_key r.robots id)) [
      | inl m ↦
          let same = ok-eq _ r' (rw (k, m) at e) in
          subst (λ (x : BodyRegistry F). has_key x.humans j ≡ has_key r.humans j) same refl
      | inr m ↦ no_result _ r' (rw (k, m) at e)
    ]
  ]

  removed-has_key :
      (z : Bool) (r r' : BodyRegistry F) (id j : Text)
      → (if z then remove r id else ok r) ≡ ok r'
      → z && text_eq id j ≡ false
      → has_key r'.humans j ≡ has_key r.humans j
  removed-has_key true r r' id j e h = remove-has_key r r' id j e h
  removed-has_key false r r' id j e h =
      sym (ap (λ (x : BodyRegistry F). has_key x.humans j) (ok-eq r r' e))

  -- The loop removes no human but those that it lists.
  remove_loop-has_key :
      (r : BodyRegistry F) (t : ℕ) (hids : List Text) (q : BodyRegistry F × List Text) (j : Text)
      → remove_loop r t hids ≡ ok q
      → is_member j q.1 ≡ false
      → has_key q.0.humans j ≡ has_key r.humans j
  unfolding remove_loop is_member
  remove_loop-has_key r t [] q j e h =
      sym (ap (λ (x : BodyRegistry F × List Text). has_key x.0.humans j) (ok-eq _ q e))
  remove_loop-has_key r t (hid ∷ hids) q j e h =
      let (gone, e1, e2) = >>=-eq-ok (is_unresponding r t hid) _ e in
      let (r', e3, e4) = >>=-eq-ok (if gone then remove r hid else ok r) _ e2 in
      let (rest, e5, e6) = >>=-eq-ok (remove_loop r' t hids) _ e4 in
      let same = ok-eq _ q e6 in
      let listed : is_member j (if gone then hid ∷ rest.1 else rest.1) ≡ false =
        subst (λ (x : BodyRegistry F × List Text). is_member j x.1 ≡ false) (sym same) h in
      let (first, others) = listed_parts gone hid j rest.1 listed in
      subst (λ (x : BodyRegistry F × List Text). has_key x.0.humans j ≡ has_key r.humans j) same
        (remove_loop-has_key r' t hids rest j e5 others ∙ removed-has_key gone r r' hid j e3 first)

  -- The second registry has every human of the first that is not listed.
  Keeps : BodyRegistry F → BodyRegistry F → List Text → Type 0
  Keeps r r' removed =
      (j : Text) → is_member j removed ≡ false → has_key r'.humans j ≡ has_key r.humans j

  KnownJobs : BodyRegistry F → List (LookAheadJob F) → Type 0
  KnownJobs r jobs = All (λ (job : LookAheadJob F). Known r job.id.human) jobs

  KnownPairs : BodyRegistry F → List HumanRobotIdPair → Type 0
  KnownPairs r ps = All (λ (p : HumanRobotIdPair). Known r p.human) ps

  keep_jobs-Known :
      (r r' : BodyRegistry F) (removed : List Text) (jobs : List (LookAheadJob F))
      → Keeps r r' removed
      → KnownJobs r jobs
      → KnownJobs r' (keep_jobs removed jobs)
  unfolding keep_jobs KnownJobs Keeps Known
  keep_jobs-Known r r' removed [] keeps h = tt
  keep_jobs-Known r r' removed (job ∷ jobs) keeps h =
      elim (Bool-cases (is_member job.id.human removed)) [
        | inl e ↦ rw e (keep_jobs-Known r r' removed jobs keeps h.1)
        | inr e ↦ rw e (keeps job.id.human e ∙ h.0, keep_jobs-Known r r' removed jobs keeps h.1)
      ]

  keep_pairs-Known :
      (r r' : BodyRegistry F) (removed : List Text) (ps : List HumanRobotIdPair)
      → Keeps r r' removed
      → KnownPairs r ps
      → KnownPairs r' (keep_pairs removed ps)
  unfolding keep_pairs KnownPairs Keeps Known
  keep_pairs-Known r r' removed [] keeps h = tt
  keep_pairs-Known r r' removed (p ∷ ps) keeps h = elim (Bool-cases (is_member p.human removed)) [
    | inl e ↦ rw e (keep_pairs-Known r r' removed ps keeps h.1)
    | inr e ↦ rw e (keeps p.human e ∙ h.0, keep_pairs-Known r r' removed ps keeps h.1)
  ]

  -- What is kept of the jobs and pairs, whether or not a human was removed.
  kept_jobs :
      (r r' : BodyRegistry F) (removed : List Text) (jobs : List (LookAheadJob F))
      → Keeps r r' removed
      → KnownJobs r jobs
      → KnownJobs r' (if is_nil removed then jobs else keep_jobs removed jobs)
  unfolding KnownJobs Keeps Known is_member
  kept_jobs r r' [] jobs keeps h = All-map _ _ (λ job k. keeps job.id.human refl ∙ k) jobs h
  kept_jobs r r' (id ∷ removed) jobs keeps h = keep_jobs-Known r r' (id ∷ removed) jobs keeps h

  kept_pairs :
      (r r' : BodyRegistry F) (removed : List Text) (ps : List HumanRobotIdPair)
      → Keeps r r' removed
      → KnownPairs r ps
      → KnownPairs r' (if is_nil removed then ps else keep_pairs removed ps)
  unfolding KnownPairs Keeps Known is_member
  kept_pairs r r' [] ps keeps h = All-map _ _ (λ p k. keeps p.human refl ∙ k) ps h
  kept_pairs r r' (id ∷ removed) ps keeps h = keep_pairs-Known r r' (id ∷ removed) ps keeps h

  -- Where the registry has the humans of all sleeping jobs and of all pending pairs, it still has
  -- them after the removal of the humans that do not respond, whenever that returns: the jobs and
  -- the pairs of a human go with the human.
  pub remove_unresponding_humans-Known :
      (s s' : RuntimeReceiver F) (latest_msg_timestamp : ℕ)
      → All (λ (job : LookAheadJob F). Known s.registry job.id.human) s.sleeping_jobs
      → All (λ (p : HumanRobotIdPair). Known s.registry p.human) s.pending_human_robot_pairs
      → remove_unresponding_humans s latest_msg_timestamp ≡ ok s'
      → All (λ (job : LookAheadJob F). Known s'.registry job.id.human) s'.sleeping_jobs
        × All (λ (p : HumanRobotIdPair). Known s'.registry p.human) s'.pending_human_robot_pairs
  unfolding remove_unresponding_humans KnownJobs KnownPairs Keeps
  remove_unresponding_humans-Known s s' t jobs pairs e =
      let (q, e1, e2) = >>=-eq-ok (remove_loop s.registry t (human_ids s.registry)) _ e in
      let keeps : Keeps s.registry q.0 q.1 =
        λ j h. remove_loop-has_key s.registry t (human_ids s.registry) q j e1 h in
      subst
        (λ (x : RuntimeReceiver F).
          KnownJobs x.registry x.sleeping_jobs × KnownPairs x.registry x.pending_human_robot_pairs)
        (ok-eq _ s' e2)
        (
          kept_jobs s.registry q.0 q.1 s.sleeping_jobs keeps jobs,
          kept_pairs s.registry q.0 q.1 s.pending_human_robot_pairs keeps pairs,
        )
