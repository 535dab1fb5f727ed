-- ===== src/Receiver/Pairs.antt =====
-- A robot that is presented after a human (src/runtime_io.cpp): the pair has its identifiers the
-- wrong way round.
use opera.Prelude.{
  ◌≡◌, refl, ap, subst, List, [], ◌∷◌, ◌++◌, true, false, if◌then◌else◌, ok, err, out_of_range,
  >>=-eq-ok, ok-eq, arith,
}
use opera.Prelude.Doubles.{Doubles}
use opera.Prelude.Arithmetic.{Arithmetic}
use opera.Prelude.Texts.{Text, text_eq, text_eq_refl}
use opera.ModeTrace.{Likelihoods}
use opera.Bodies.{construct_robot}
use opera.Prelude.Maps.{has_key, value_at, keys}
use opera.BodyRegistry.{
  BodyRegistry, BodyPresentationMessage, contains, human_ids, robot_ids, robot_entry, robot_history,
  insert_robot, insert,
}
use opera.BodyRegistry.Contents.{IsSeparate, insert-contains}
use opera.Receiver.{RuntimeReceiver, HumanRobotIdPair, pairs_with, on_body_presentation}
use opera.Receiver.Jobs.{promote_pair, promote_loop, promote_pairs_to_jobs}

first_eq : (x y : Text) (xs ys : List Text) → x ∷ xs ≡ y ∷ ys → x ≡ y
first_eq x y xs ys h = cc

module _ {V : Type 0} where
  value_at-missing :
      (es : List (Text × V)) (id : Text) → has_key es id ≡ false → value_at es id ≡ err out_of_range
  unfolding has_key value_at
  value_at-missing [] id h = refl
  value_at-missing ((k, v) ∷ es) id h = ground (arith, value_at-missing es id)

  has_key-first :
      (es : List (Text × V)) (id : Text) (ids : List Text)
      → keys es ≡ id ∷ ids
      → has_key es id ≡ true
  unfolding has_key keys
  has_key-first [] id ids h = cc
  has_key-first ((k, v) ∷ es) id ids h =
      let same : k ≡ id = first_eq k id (keys es) ids h in
      ground (arith, ap (λ t. text_eq t id) same, text_eq_refl id)

module _ {F : Type 0} where
  robot_history-human :
      (r : BodyRegistry F) (id : Text)
      → IsSeparate r
      → has_key r.humans id ≡ true
      → robot_history r id ≡ err out_of_range
  unfolding robot_history robot_entry contains IsSeparate
  robot_history-human r id apart h =
      let missing : has_key r.robots id ≡ false = ground (arith, apart id, h) in
      rw (h, value_at-missing r.robots id missing) refl

module _ {F : Type 0} ⦃d : Doubles F⦄ ⦃a : Arithmetic F⦄ ⦃l : Likelihoods F⦄ where
  promote_pairs-swapped :
      (s : RuntimeReceiver F) (p : HumanRobotIdPair) (ps : List HumanRobotIdPair)
      → s.pending_human_robot_pairs ≡ p ∷ ps
      → robot_history s.registry p.robot ≡ err out_of_range
      → promote_pairs_to_jobs s ≡ err out_of_range
  unfolding promote_pairs_to_jobs promote_loop promote_pair
  promote_pairs-swapped s p ps e h = rw (e, h) refl

module _ {F : Type 0} where
  insert_robot-humans :
      (r r' : BodyRegistry F) (p : BodyPresentationMessage F)
      → contains r p.id ≡ false
      → p.is_human ≡ false
      → insert r p ≡ ok r'
      → r.humans ≡ r'.humans
  unfolding insert insert_robot
  insert_robot-humans r r' p new robot e =
      let e' : insert_robot r p.id p.message_frequency p.segment_pairs p.thicknesses ≡ ok r' =
        rw (new, robot) at e in
      let (body, e1, e2) =
        >>=-eq-ok (construct_robot p.id p.message_frequency p.segment_pairs p.thicknesses) _ e' in
      ap (λ (x : BodyRegistry F). x.humans) (ok-eq _ r' e2)

  -- The state after the presentation of a body that was not there.
  presented :
      (s s' : RuntimeReceiver F) (msg : BodyPresentationMessage F)
      → contains s.registry msg.id ≡ false
      → on_body_presentation s msg ≡ ok s'
      → (r : BodyRegistry F) × (insert s.registry msg ≡ ok r)
        × (record s {
          registry = r;
          pending_human_robot_pairs =
              s.pending_human_robot_pairs
              ++ (if msg.is_human
                  then pairs_with msg.id (robot_ids s.registry)
                  else pairs_with msg.id (human_ids s.registry));
        }
            ≡ s')
  unfolding on_body_presentation
  presented s s' msg new e =
      let (r, e1, e2) = >>=-eq-ok (insert s.registry msg) _ (rw new at e) in (r, e1, ok-eq _ s' e2)

module _ {F : Type 0} ⦃d : Doubles F⦄ ⦃a : Arithmetic F⦄ ⦃l : Likelihoods F⦄ where
  -- A robot that is presented to a receiver that has a human already, and no pending pairs, makes
  -- pairs with its own identifier as the human's and the human's as the robot's. The next promotion
  -- of the pairs then throws, since the human's identifier is not that of a robot. The condition is
  -- that no identifier was that of a human and of a robot before.
  pub promote_pairs_to_jobs-swapped :
      (s s' : RuntimeReceiver F) (msg : BodyPresentationMessage F) (hid : Text) (hids : List Text)
      → IsSeparate s.registry
      → s.pending_human_robot_pairs ≡ []
      → msg.is_human ≡ false
      → contains s.registry msg.id ≡ false
      → human_ids s.registry ≡ hid ∷ hids
      → on_body_presentation s msg ≡ ok s'
      → promote_pairs_to_jobs s' ≡ err out_of_range
  unfolding pairs_with human_ids
  promote_pairs_to_jobs-swapped s s' msg hid hids apart idle robot new ids e =
      let (r, inserted, same) = presented s s' msg new e in
      let (adds, apart') = insert-contains s.registry r msg apart inserted in
      let kept = insert_robot-humans s.registry r msg new robot inserted in
      let there : has_key r.humans hid ≡ true =
        subst (λ h. has_key h hid ≡ true) kept (has_key-first s.registry.humans hid hids ids) in
      subst (λ (x : RuntimeReceiver F). promote_pairs_to_jobs x ≡ err out_of_range) same
        (promote_pairs-swapped _ (record { human = msg.id; robot = hid }) (pairs_with msg.id hids)
          (rw (idle, robot, ids) refl) (robot_history-human r hid apart' there))
