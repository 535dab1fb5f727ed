-- ===== src/Bodies/Cache.antt =====
-- The bounding sets that a sample keeps (src/body.cpp) are those of its present positions.
use opera.Prelude.{
  ◌≡◌, refl, subst, ◌⊎◌, inl, inr, List, Bool, true, false, not, if◌then◌else◌, ok, >>=-eq-ok,
  ok-eq, Option, none, some,
}
use opera.Prelude.Doubles.{Doubles}
use opera.Prelude.Arithmetic.{Arithmetic}
use opera.Geometry.{Point, Box, Sphere}
use opera.Bodies.Sample.{
  BodySegmentSample, update_bounds, update_empty, computed_box, computed_sphere, recalculate_box,
  recalculate_sphere, recalculate_radius_bounding_sets, update_head_centre, update_tail_centre,
  update, bounding_box, bounding_sphere,
}

module _ {F : Type 0} ⦃d : Doubles F⦄ ⦃a : Arithmetic F⦄ where
  -- What the bounding sets are asked for is what they are now.
  pub IsCurrent : BodySegmentSample F → Type 0
  IsCurrent s = ((bounding_box s).0 ≡ computed_box s) × ((bounding_sphere s).0 ≡ computed_sphere s)

  -- The sample with pointers to its bounding sets.
  with_sets : BodySegmentSample F → Option (Box F) → Option (Sphere F) → BodySegmentSample F
  with_sets s b c = record s { bb = b; bs = c }

  recalculate-with_sets :
      (s : BodySegmentSample F) (b : Option (Box F)) (c : Option (Sphere F))
      → IsCurrent (recalculate_radius_bounding_sets (with_sets s b c))
  unfolding IsCurrent with_sets recalculate_radius_bounding_sets recalculate_box recalculate_sphere
      bounding_box bounding_sphere computed_box computed_sphere
  recalculate-with_sets s none none = (refl, refl)
  recalculate-with_sets s none (some c) = (refl, refl)
  recalculate-with_sets s (some b) none = (refl, refl)
  recalculate-with_sets s (some b) (some c) = (refl, refl)

  recalculate-IsCurrent : (s : BodySegmentSample F) → IsCurrent (recalculate_radius_bounding_sets s)
  unfolding with_sets
  recalculate-IsCurrent s = recalculate-with_sets s s.bb s.bs

  choose-IsCurrent :
      (z : Bool) (q r : BodySegmentSample F)
      → IsCurrent r
      → q.empty ≡ z
      → ((if not z then r else q).empty ≡ true) ⊎ IsCurrent (if not z then r else q)
  choose-IsCurrent true q r h e = inl e
  choose-IsCurrent false q r h e = inr h

  -- After an update the bounding box and the bounding sphere of a sample are those of its centres,
  -- its radius and its thickness, whichever of them had been asked for before, unless the sample is
  -- still empty.
  pub update-IsCurrent :
      (s : BodySegmentSample F) (heads tails : List (Point F)) (r : BodySegmentSample F)
      → update s heads tails ≡ ok r
      → (r.empty ≡ true)
        ⊎ ((bounding_box r).0 ≡ computed_box r) × ((bounding_sphere r).0 ≡ computed_sphere r)
  unfolding update IsCurrent
  update-IsCurrent s heads tails r h =
      let (t, e, h') =
        >>=-eq-ok (update_head_centre heads (update_empty (update_bounds heads tails s))) _ h in
      let (q, e', h'') = >>=-eq-ok (update_tail_centre tails t) _ h' in
      subst (λ (o : BodySegmentSample F). (o.empty ≡ true) ⊎ IsCurrent o) (ok-eq _ _ h'')
        (choose-IsCurrent q.empty q (recalculate_radius_bounding_sets q) (recalculate-IsCurrent q)
          refl)
