-- ===== src/Sequence/Necessary.antt =====
-- The policy that adds a section when it is necessary (src/barrier.cpp): where the robot sample meets
-- the human sample of the last section, that section stays as it was and a new one begins.
use opera.Prelude.{
  ◌^◌, ◌<◌, ◌≡◌, refl, subst, ap, ◌∙◌, sym, List, [], ◌∷◌, ◌++◌, Bool, true, false, ok, ◌>>=◌,
  >>=-eq-ok, ok_pair, back, set_back, All, back-append,
}
use opera.Prelude.Doubles.{Doubles, IsOrdered}
use opera.TraceSampleRange
use opera.TraceSampleRange.{TraceSampleIndex}
use opera.Section
use opera.Section.{Section, SectionKind, keep_minimum}
use opera.Section.Minimum.{minimum, current_minimum_distance-minimum}
use opera.Section.Stepping.{Stepped}
use opera.Sequence.{
  Samples, UpdatePolicy, add_when_necessary, Sequence, is_empty, put_last, add_from, drop_empty,
  check_and_update_last, add_if_colliding, check_and_update_add_when_necessary,
  check_and_update_section, check_and_update,
}
use opera.Sequence.Adding.{
  All-back, IsFilled, FollowsLast, back-full, last_section-back, check_and_update_last-Stepped,
  remove_last_barrier-undoes,
}
use opera.Sequence.Policies.{reaches_collision-last}

module _ {S F : Type 0} ⦃d : Doubles F⦄ ⦃k : SectionKind S F⦄ where
  check_and_update-clear :
      (s s' : Section S F) (robot_sample : S) (index : TraceSampleIndex) (clear : Bool)
      → Section.reaches_collision s ≡ ok false
      → Section.check_and_update s robot_sample index ≡ ok (clear, s')
      → d.lt d.zero (k.minimum_human_robot_distance s.human_sample robot_sample) ≡ clear
  unfolding Section.check_and_update
  check_and_update-clear s s' robot_sample index clear none h =
      let D : F = k.minimum_human_robot_distance s.human_sample robot_sample in
      let h' : (keep_minimum s D (minimum s.barriers) index >>= λ t. ok (d.lt d.zero D, t))
          ≡ ok (clear, s') =
        rw (none, current_minimum_distance-minimum s) at h in
      let (t, f, g) =
        >>=-eq-ok (keep_minimum s D (minimum s.barriers) index) (λ t. ok (d.lt d.zero D, t)) h' in
      (ok_pair (d.lt d.zero D) clear t s' g).0

  -- The section that begins for a human sample with a robot sample.
  abbrev pub first_section : S → S → TraceSampleIndex → Section S F
  first_section human_sample robot_sample index = record {
    human_sample = human_sample;
    barriers =
        record {
          minimum_distance = k.minimum_human_robot_distance human_sample robot_sample;
          range = TraceSampleRange.construct index;
        }
        ∷ [];
  }

  check_and_update_last-first :
      (q : Sequence S F) (human_sample robot_sample : S) (index : TraceSampleIndex)
      → check_and_update_last (add_from q human_sample) robot_sample index
        ≡ ok (
          d.lt d.zero (k.minimum_human_robot_distance human_sample robot_sample),
          record q { sections = q.sections ++ first_section human_sample robot_sample index ∷ [] },
        )
  unfolding check_and_update_last add_from put_last Section.check_and_update Section.construct
      Section.reaches_collision Section.is_empty Section.current_minimum_distance keep_minimum
      Section.add_barrier
  check_and_update_last-first q human_sample robot_sample index = rw (
    last_section-back (add_from q human_sample) (Section.construct human_sample)
        (back-append q.sections (Section.construct human_sample)),
    set_back-append q.sections (Section.construct human_sample)
        (first_section human_sample robot_sample index),
  )
    where
      set_back-append :
          (ss : List (Section S F)) (s t : Section S F) → set_back (ss ++ s ∷ []) t ≡ ss ++ t ∷ []
      set_back-append [] s t = refl
      set_back-append (r ∷ []) s t = refl
      set_back-append (r ∷ u ∷ ss) s t = ap (◌∷◌ r) (set_back-append (u ∷ ss) s t)

module _ {S F : Type 0} ⦃d : Doubles F⦄ ⦃k : SectionKind S F⦄ ⦃e : Samples S⦄ where
  last-clear :
      (q q' : Sequence S F) (s : Section S F) (robot_sample : S) (index : TraceSampleIndex)
      (clear : Bool)
      → back q.sections ≡ ok s
      → Section.reaches_collision s ≡ ok false
      → check_and_update_last q robot_sample index ≡ ok (clear, q')
      → d.lt d.zero (k.minimum_human_robot_distance s.human_sample robot_sample) ≡ clear
  unfolding check_and_update_last
  last-clear q q' s robot_sample index clear last none f =
      let f' : (Section.check_and_update s robot_sample index >>= λ (r : Bool × Section S F).
      ok (r.0, put_last q r.1))
          ≡ ok (clear, q') =
        rw (last_section-back q s last) at f in
      let (r, g, h) =
        >>=-eq-ok (Section.check_and_update s robot_sample index)
          (λ (r : Bool × Section S F). ok (r.0, put_last q r.1)) f' in
      check_and_update-clear s r.1 robot_sample index r.0 none g
      ∙ (ok_pair r.0 clear (put_last q r.1) q' h).0

  section-policy :
      (p : UpdatePolicy) (q : Sequence S F) (human_sample robot_sample : S)
      (index : TraceSampleIndex)
      → p ≡ add_when_necessary
      → check_and_update_section p q human_sample robot_sample index
        ≡ check_and_update_add_when_necessary q human_sample robot_sample index
  unfolding check_and_update_section
  section-policy p q human_sample robot_sample index h = rw h

-- Under the policy that adds sections when necessary, for a human sample that differs from the one
-- of the last section, where the last section has reached no collision and the robot sample meets
-- its human sample: `check_and_update` keeps all sections as they were, with their barriers, and adds
-- one for the new human sample, whose only barrier has the distance of the two samples and begins at
-- the index; it returns whether this distance is positive. The sections hold barriers, with ranges in
-- order and distances that are not negative, and the index lies past the last barrier.
pub check_and_update-adds :
    {S F : Type 0} ⦃d : Doubles F⦄ ⦃k : SectionKind S F⦄ ⦃e : Samples S⦄ (o : IsOrdered d)
    (q : Sequence S F) (s : Section S F) (human_sample robot_sample : S) (index : TraceSampleIndex)
    → ((a b : S) → d.le d.zero (k.minimum_human_robot_distance a b) ≡ true)
    → index.trace < 2 ^ 64
    → All IsFilled q.sections
    → FollowsLast q index
    → q.update_policy ≡ add_when_necessary
    → back q.sections ≡ ok s
    → e.differ s.human_sample human_sample ≡ true
    → Section.reaches_collision s ≡ ok false
    → d.lt d.zero (k.minimum_human_robot_distance s.human_sample robot_sample) ≡ false
    → check_and_update q human_sample robot_sample index
      ≡ ok (
        d.lt d.zero (k.minimum_human_robot_distance human_sample robot_sample),
        record q { sections = q.sections ++ first_section human_sample robot_sample index ∷ [] },
      )
unfolding check_and_update check_and_update_add_when_necessary add_if_colliding is_empty drop_empty
    Section.is_empty
check_and_update-adds ⦃d⦄ ⦃k⦄ ⦃e⦄ o q s human_sample robot_sample index clearance w filled follows
      policy last new none touching =
    let (kept, _) = All-back IsFilled q.sections s filled last in
    let t : Section _ _ = first_section human_sample robot_sample index in
    let (c, s', f, step) =
      check_and_update_last-Stepped o clearance robot_sample index w q s last kept follows in
    let met : c ≡ false =
      sym (last-clear q (put_last q s') s robot_sample index c last none f) ∙ touching in
    rw (
      back-full q.sections last,
      section-policy q.update_policy q human_sample robot_sample index policy,
      last_section-back q s last,
      new,
      reaches_collision-last q s last,
      none,
      f,
      met,
      remove_last_barrier-undoes o clearance robot_sample index w q s s' last
          (subst (λ b. Stepped s b s') met step) none,
      check_and_update_last-first q human_sample robot_sample index,
      last_section-back (record q { sections = q.sections ++ t ∷ [] }) t (back-append q.sections t),
    )
