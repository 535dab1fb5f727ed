-- ===== src/Bodies/Keypoints.antt =====
-- The constructor of a body (src/body.cpp) collects the identifiers of the keypoints.
use opera.Prelude.{
  ℕ, ◌+◌, ◌≡◌, ◌≢◌, refl, ◌⊎◌, inl, inr, List, [], ◌∷◌, ◌++◌, Bool, true, false, not, ◌&&◌, ◌||◌,
  ◌==◌, ◌%◌, ◌^◌, Bool-cases, arith, ok, err, assertion, length, length-append, at-ok, All,
}
use opera.Prelude.Texts.{Text, text_eq, text_eq_refl}
use opera.Bodies.{
  BodySegment, Body, contains_id, insert_id, construct_loop, construct, num_segments,
}

text_eq_sym : (a b : Text) → text_eq a b ≡ text_eq b a
unfolding text_eq
text_eq_sym [] [] = refl
text_eq_sym [] (y ∷ b) = refl
text_eq_sym (x ∷ a) [] = refl
text_eq_sym (x ∷ a) (y ∷ b) = ground (arith, text_eq_sym a b)

-- No identifier is there twice.
unfoldable pub distinct : List Text → Bool
distinct [] = true
distinct (k ∷ ks) = not (contains_id ks k) && distinct ks

contains_id-append :
    (ids : List Text) (j k : Text)
    → contains_id (ids ++ j ∷ []) k ≡ contains_id ids k || text_eq j k
unfolding contains_id
contains_id-append [] j k = ground arith
contains_id-append (i ∷ ids) j k = ground (arith, contains_id-append ids j k)

distinct-append :
    (ids : List Text) (k : Text)
    → contains_id ids k ≡ false
    → distinct ids ≡ true
    → distinct (ids ++ k ∷ []) ≡ true
unfolding distinct contains_id
distinct-append [] k h d = refl
distinct-append (i ∷ ids) k h d =
    ground (arith, distinct-append ids k, contains_id-append ids k i, text_eq_sym k i)

distinct-insert_id :
    (ids : List Text) (k : Text) → distinct ids ≡ true → distinct (insert_id ids k) ≡ true
unfolding insert_id
distinct-insert_id ids k d = ground (arith, distinct-append ids k)

insert_id-contains : (ids : List Text) (k : Text) → contains_id (insert_id ids k) k ≡ true
unfolding insert_id
insert_id-contains ids k = ground (arith, contains_id-append ids k k, text_eq_refl k)

insert_id-keeps :
    (ids : List Text) (j k : Text)
    → contains_id ids k ≡ true
    → contains_id (insert_id ids j) k ≡ true
unfolding insert_id
insert_id-keeps ids j k h = ground (arith, contains_id-append ids j k)

module _ {F : Type 0} where
  -- The ends of the segment are keypoints.
  pub Covered : List Text → BodySegment F → Type 0
  Covered ids s = (contains_id ids s.head_id ≡ true) × (contains_id ids s.tail_id ≡ true)

  insert_id-Covered :
      (ids : List Text) (k : Text) (ss : List (BodySegment F))
      → All (Covered ids) ss
      → All (Covered (insert_id ids k)) ss
  unfolding Covered
  insert_id-Covered ids k [] h = tt
  insert_id-Covered ids k (s ∷ ss) h = (
    (insert_id-keeps ids k s.head_id h.0.0, insert_id-keeps ids k s.tail_id h.0.1),
    insert_id-Covered ids k ss h.1,
  )

  append-All :
      (P : BodySegment F → Type 0) (ss : List (BodySegment F)) (s : BodySegment F)
      → All P ss
      → P s
      → All P (ss ++ s ∷ [])
  append-All P [] s h k = (k, tt)
  append-All P (t ∷ ss) s h k = (h.0, append-All P ss s h.1 k)

  -- Both ends of a segment are there once both are inserted.
  ends :
      (ids : List Text) (j k : Text) (s : BodySegment F)
      → s.head_id ≡ j
      → s.tail_id ≡ k
      → Covered (insert_id (insert_id ids j) k) s
  unfolding Covered
  ends ids j k s h h' = (
    rw h (insert_id-keeps (insert_id ids j) k j (insert_id-contains ids j)),
    rw h' (insert_id-contains (insert_id ids j) k),
  )

  construct_loop-Covered :
      (ts : List F) (i : ℕ) (points : List (Text × Text)) (ids : List Text)
      (ss : List (BodySegment F))
      → i + length ts ≡ length points
      → distinct ids ≡ true
      → All (Covered ids) ss
      → (r : List Text × List (BodySegment F)) × (construct_loop ts i points ids ss ≡ ok r)
        × (distinct r.0 ≡ true)
        × All (Covered r.0) r.1
        × (length r.1 ≡ length ss + length ts)
  unfolding construct_loop
  construct_loop-Covered [] i points ids ss e d c = ((ids, ss), refl, d, c, omega arith)
  construct_loop-Covered (t ∷ ts) i points ids ss e d c =
      let (p, k) = at-ok points i (omega (arith, e)) in
      let ids' : List Text = insert_id (insert_id ids p.0) p.1 in
      let s : BodySegment F = record {
        index = i % 2 ^ 32;
        head_id = p.0;
        tail_id = p.1;
        thickness = t;
      } in
      let (r, e', d', c', l) =
        construct_loop-Covered ts (i + 1) points ids' (ss ++ s ∷ []) (omega (arith, e))
          (distinct-insert_id (insert_id ids p.0) p.1 (distinct-insert_id ids p.0 d))
          (append-All (Covered ids') ss s
            (insert_id-Covered (insert_id ids p.0) p.1 ss (insert_id-Covered ids p.0 ss c))
            (ends ids p.0 p.1 s refl refl)) in
      (r, rw k e', d', c', omega (arith, l, length-append ss (s ∷ [])))

  -- The constructor of a body returns exactly if there are as many pairs of points as thicknesses.
  -- Then the body has a segment for each pair, no keypoint is listed twice, and both ends of every
  -- segment are among the keypoints; otherwise it throws.
  pub construct-Covered :
      (id : Text) (points : List (Text × Text)) (thicknesses : List F)
      → ((b : Body F) × (construct id points thicknesses ≡ ok b)
          × (length points ≡ length thicknesses)
          × (num_segments b ≡ length thicknesses)
          × (distinct b.keypoint_ids ≡ true)
          × All (Covered b.keypoint_ids) b.segments)
        ⊎ (construct id points thicknesses ≡ err assertion) × (length points ≢ length thicknesses)
  unfolding construct num_segments distinct
  construct-Covered id points thicknesses =
      elim (Bool-cases (length points == length thicknesses)) [
        | inl e ↦
            let same : length points ≡ length thicknesses = ground (arith, e) in
            let (r, e', d, c, l) =
              construct_loop-Covered thicknesses 0 points [] [] (omega (arith, same)) refl tt in
            inl (
              record { id = id; keypoint_ids = r.0; segments = r.1 },
              rw (e, e') refl,
              same,
              omega (arith, l),
              d,
              c,
            )
        | inr e ↦ inr (rw e refl, λ h. ground (arith, e, h))
      ]
