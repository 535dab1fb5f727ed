-- ===== src/BodyRegistry/Contents.antt =====
-- What a body registry contains (src/body_registry.cpp).
use opera.Prelude.{
  ◌≡◌, refl, ap, subst, inl, inr, List, [], ◌∷◌, Bool, true, false, ◌&&◌, ◌||◌, Bool-cases,
  if◌then◌else◌, ok, >>=-eq-ok, ok-eq, arith,
}
use opera.Prelude.Texts.{Text, text_eq, text_eq_sound}
use opera.Bodies.{construct, construct_robot}
use opera.Prelude.Maps.{has_key, insert_key}
use opera.BodyRegistry.{
  BodyPresentationMessage, BodyRegistry, HumanRegistryEntry, RobotRegistryEntry, contains,
  insert_human, insert_robot, insert,
}

-- Equal texts are equal to the same texts.
text_eq-same : (j k i : Text) → text_eq j k ≡ true → text_eq j i ≡ text_eq k i
text_eq-same j k i h = ap (λ t. text_eq t i) (text_eq_sound j k h)

module _ {V : Type 0} where
  has_key-insert_key :
      (es : List (Text × V)) (id : Text) (w : V) (j : Text)
      → has_key (insert_key es id w) j ≡ text_eq id j || has_key es j
  unfolding has_key insert_key
  has_key-insert_key [] id w j = refl
  has_key-insert_key ((k, v) ∷ es) id w j =
      ground (arith, has_key-insert_key es id w j, text_eq-same k id j)

  has_key-same :
      (es : List (Text × V)) (id j : Text) → text_eq id j ≡ true → has_key es id ≡ has_key es j
  has_key-same es id j h = ap (has_key es) (text_eq_sound id j h)

module _ {F : Type 0} where
  -- No identifier is that of a human and of a robot.
  unfoldable pub IsSeparate : BodyRegistry F → Type 0
  IsSeparate r = (j : Text) → has_key r.humans j && has_key r.robots j ≡ false

  -- The second registry contains the identifier too, and is separate.
  Adds : BodyRegistry F → Text → BodyRegistry F → Type 0
  Adds r id r' = ((j : Text) → contains r' j ≡ text_eq id j || contains r j) × IsSeparate r'

  human-Adds :
      (r : BodyRegistry F) (id : Text) (w : HumanRegistryEntry F)
      → contains r id ≡ false
      → IsSeparate r
      → Adds r id (record r { humans = insert_key r.humans id w })
  unfolding Adds contains IsSeparate
  human-Adds r id w new apart = (
    λ j. ground (arith, has_key-insert_key r.humans id w j),
    λ j.
        ground
          (arith, has_key-insert_key r.humans id w j, has_key-same r.robots id j, apart j, new),
  )

  robot-Adds :
      (r : BodyRegistry F) (id : Text) (w : RobotRegistryEntry F)
      → contains r id ≡ false
      → IsSeparate r
      → Adds r id (record r { robots = insert_key r.robots id w })
  unfolding Adds contains IsSeparate
  robot-Adds r id w new apart = (
    λ j. ground (arith, has_key-insert_key r.robots id w j),
    λ j.
        ground
          (arith, has_key-insert_key r.robots id w j, has_key-same r.humans id j, apart j, new),
  )

  inserted-Adds :
      (z : Bool) (r r' : BodyRegistry F) (p : BodyPresentationMessage F)
      → contains r p.id ≡ false
      → IsSeparate r
      → (if z
          then insert_human r p.id p.segment_pairs p.thicknesses
          else insert_robot r p.id p.message_frequency p.segment_pairs p.thicknesses)
        ≡ ok r'
      → Adds r p.id r'
  unfolding insert_human insert_robot
  inserted-Adds true r r' p new apart e =
      let (body, e1, e2) = >>=-eq-ok (construct p.id p.segment_pairs p.thicknesses) _ e in
      subst (Adds r p.id) (ok-eq _ r' e2) (human-Adds r p.id _ new apart)
  inserted-Adds false r r' p new apart e =
      let (body, e1, e2) =
        >>=-eq-ok (construct_robot p.id p.message_frequency p.segment_pairs p.thicknesses) _ e in
      subst (Adds r p.id) (ok-eq _ r' e2) (robot-Adds r p.id _ new apart)

  same_contains :
      (r : BodyRegistry F) (id j : Text) → text_eq id j ≡ true → contains r id ≡ contains r j
  same_contains r id j h = ap (contains r) (text_eq_sound id j h)

  known :
      (r : BodyRegistry F) (id j : Text)
      → contains r id ≡ true
      → contains r j ≡ text_eq id j || contains r j
  known r id j k = ground (arith, same_contains r id j, k)

  -- The insertion of a presentation, where it returns, makes the registry contain its identifier,
  -- and no other one that it did not contain, whether or not it was there before. A registry in
  -- which no identifier is that of a human and of a robot stays one.
  pub insert-contains :
      (r r' : BodyRegistry F) (p : BodyPresentationMessage F)
      → IsSeparate r
      → insert r p ≡ ok r'
      → ((j : Text) → contains r' j ≡ text_eq p.id j || contains r j) × IsSeparate r'
  unfolding insert Adds
  insert-contains r r' p apart e = elim (Bool-cases (contains r p.id)) [
    | inl k ↦
        let same : ok r ≡ ok r' = rw k at e in
        subst (Adds r p.id) (ok-eq r r' same) (λ j. known r p.id j k, apart)
    | inr k ↦
        let e' : (if p.is_human
              then insert_human r p.id p.segment_pairs p.thicknesses
              else insert_robot r p.id p.message_frequency p.segment_pairs p.thicknesses)
            ≡ ok r' =
          rw k at e in
        inserted-Adds p.is_human r r' p k apart e'
  ]
