-- ===== src/Sequence/Policies.antt =====
-- The three update policies of a sequence (src/barrier.cpp): each call returns, and keeps every
-- section filled.
use opera.Prelude.{
  ◌^◌, ◌<◌, ◌≡◌, refl, subst, inl, inr, List, Bool, true, false, not, Bool-cases, ok, arith, length,
  is_nil, back, drop_last, All, All-set_back, All-drop_last, back-append, back-ok, back-pos,
}
use opera.Prelude.Doubles.{Doubles, IsOrdered}
use opera.TraceSampleRange.{TraceSampleIndex}
use opera.Section
use opera.Section.{Section, SectionKind}
use opera.Section.Following.{reaches_collision-returns}
use opera.Section.Stepping.{IsKept, Stepped}
use opera.Sequence.{
  Samples, UpdatePolicy, keep_one, add_when_different, add_when_necessary, Sequence, is_empty,
  put_last, add_from, drop_empty, reaches_collision, check_and_update_last,
  check_and_update_keep_one, check_and_update_add_when_different, add_if_colliding,
  check_and_update_add_when_necessary, check_and_update_section, check_and_update,
}
use opera.Sequence.Adding.{
  All-back, IsFilled, FollowsLast, IsAdvanced, Advances, back-full, set_back-same,
  last_section-back, check_and_update_last-Stepped, put_last-IsAdvanced,
  check_and_update_last-Advances, add_from-Advances, remove_last_barrier-undoes,
}

module _ {S F : Type 0} ⦃d : Doubles F⦄ where
  pub reaches_collision-last :
      (q : Sequence S F) (s : Section S F)
      → back q.sections ≡ ok s
      → reaches_collision q ≡ Section.reaches_collision s
  unfolding reaches_collision is_empty
  reaches_collision-last q s e = rw (back-full q.sections e, last_section-back q s e)

  IsFilled-All :
      (ss : List (Section S F)) (s : Section S F)
      → back ss ≡ ok s
      → All IsFilled (drop_last ss)
      → IsFilled s
      → All IsFilled ss
  IsFilled-All ss s e h f =
      subst (All IsFilled) (set_back-same ss s e) (All-set_back IsFilled ss s h f)

module _ {S F : Type 0} ⦃d : Doubles F⦄ ⦃k : SectionKind S F⦄ ⦃e : Samples S⦄ (o : IsOrdered d)
    (clearance : (a b : S) → d.le d.zero (k.minimum_human_robot_distance a b) ≡ true)
    (robot_sample : S) (index : TraceSampleIndex) (w : index.trace < 2 ^ 64) (human_sample : S)
    (q : Sequence S F) (s : Section S F) (last : back q.sections ≡ ok s) (kept : IsKept s)
    (filled : All IsFilled (drop_last q.sections)) (follows : FollowsLast q index)
    (has_barriers : e.differ s.human_sample human_sample ≡ true → 0 < length s.barriers) where
  keep_one-Advances : Advances q (check_and_update_keep_one q human_sample robot_sample index)
  unfolding check_and_update_keep_one Advances
  keep_one-Advances =
      let (c, s', f, step) =
        check_and_update_last-Stepped o clearance robot_sample index w q s last kept follows in
      let grown : IsAdvanced q (put_last q s') =
        put_last-IsAdvanced o clearance robot_sample index w q s s' c last filled step in
      elim (Bool-cases (e.differ s.human_sample human_sample)) [
        | inl new ↦ (
          not (Section.are_colliding s human_sample robot_sample),
          put_last q s',
          rw (last_section-back q s last, f, new),
          grown,
        )
        | inr same ↦ (c, put_last q s', rw (last_section-back q s last, f, same), grown)
      ]

  unchanged : e.differ s.human_sample human_sample ≡ true → IsAdvanced q q
  unchanged new = record {
    filled = IsFilled-All q.sections s last filled (kept, has_barriers new);
    not_empty = back-pos q.sections last;
    same_policy = refl;
    no_fewer = omega arith;
    one_more = omega arith;
  }

  add_when_different-Advances :
      Advances q (check_and_update_add_when_different q human_sample robot_sample index)
  unfolding check_and_update_add_when_different Advances
  add_when_different-Advances = elim (Bool-cases (e.differ s.human_sample human_sample)) [
    | inr same ↦
        let (c, q', f, grown) =
          check_and_update_last-Advances o clearance robot_sample index w q s last kept filled
            follows in
        (c, q', rw (last_section-back q s last, same) f, grown)
    | inl new ↦
        let (reached, r) =
          reaches_collision-returns o s index kept.ranges w (λ l. follows s l last) in
        elim (Bool-cases reached) [
          | inl hit ↦ (
            d.lt d.zero (k.minimum_human_robot_distance human_sample robot_sample),
            q,
            rw (last_section-back q s last, new, reaches_collision-last q s last, r, hit),
            unchanged new,
          )
          | inr none ↦
              let (c, q', f, grown) =
                add_from-Advances o clearance robot_sample index w q human_sample
                  (IsFilled-All q.sections s last filled (kept, has_barriers new)) in
              (
                c,
                q',
                rw (last_section-back q s last, new, reaches_collision-last q s last, r, none) f,
                grown,
              )
        ]
  ]

  add_if_colliding-Advances :
      e.differ s.human_sample human_sample ≡ true
      → Section.reaches_collision s ≡ ok false
      → Advances q (add_if_colliding q human_sample robot_sample index)
  unfolding add_if_colliding Advances
  add_if_colliding-Advances new none =
      let (c, s', f, step) =
        check_and_update_last-Stepped o clearance robot_sample index w q s last kept follows in
      elim (Bool-cases c) [
        | inl clear ↦ (
          d.lt d.zero (k.minimum_human_robot_distance human_sample robot_sample),
          put_last q s',
          rw (f, clear),
          put_last-IsAdvanced o clearance robot_sample index w q s s' c last filled step,
        )
        | inr touching ↦
            let (c', q', g, grown) =
              add_from-Advances o clearance robot_sample index w q human_sample
                (IsFilled-All q.sections s last filled (kept, has_barriers new)) in
            (
              c',
              q',
              rw
                  (
                    f,
                    touching,
                    remove_last_barrier-undoes o clearance robot_sample index w q s s' last
                        (subst (λ b. Stepped s b s') touching step) none,
                  )
                  g,
              grown,
            )
      ]

  add_when_necessary-Advances :
      Advances q (check_and_update_add_when_necessary q human_sample robot_sample index)
  unfolding check_and_update_add_when_necessary Advances
  add_when_necessary-Advances = elim (Bool-cases (e.differ s.human_sample human_sample)) [
    | inr same ↦
        let (c, q', f, grown) =
          check_and_update_last-Advances o clearance robot_sample index w q s last kept filled
            follows in
        (c, q', rw (last_section-back q s last, same) f, grown)
    | inl new ↦
        let (reached, r) =
          reaches_collision-returns o s index kept.ranges w (λ l. follows s l last) in
        elim (Bool-cases reached) [
          | inl hit ↦ (
            d.lt d.zero (k.minimum_human_robot_distance human_sample robot_sample),
            q,
            rw (last_section-back q s last, new, reaches_collision-last q s last, r, hit),
            unchanged new,
          )
          | inr none ↦
              let (c, q', f, grown) = add_if_colliding-Advances new (rw (← none) r) in
              (
                c,
                q',
                rw (last_section-back q s last, new, reaches_collision-last q s last, r, none) f,
                grown,
              )
        ]
  ]

  section-Advances :
      (p : UpdatePolicy) → Advances q (check_and_update_section p q human_sample robot_sample index)
  unfolding check_and_update_section
  section-Advances keep_one = keep_one-Advances
  section-Advances add_when_different = add_when_different-Advances
  section-Advances add_when_necessary = add_when_necessary-Advances

module _ {S F : Type 0} ⦃d : Doubles F⦄ ⦃k : SectionKind S F⦄ ⦃e : Samples S⦄ where
  -- For the last section's own human sample the policies do the same.
  section-same :
      (p : UpdatePolicy) (q : Sequence S F) (s : Section S F) (human_sample robot_sample : S)
      (index : TraceSampleIndex) (r : Bool × Sequence S F)
      → back q.sections ≡ ok s
      → e.differ s.human_sample human_sample ≡ false
      → check_and_update_last q robot_sample index ≡ ok r
      → check_and_update_section p q human_sample robot_sample index ≡ ok r
  unfolding check_and_update_section check_and_update_keep_one check_and_update_add_when_different
      check_and_update_add_when_necessary
  section-same keep_one q s human_sample robot_sample index r last same f =
      rw (last_section-back q s last, f, same)
  section-same add_when_different q s human_sample robot_sample index r last same f =
      rw (last_section-back q s last, same) f
  section-same add_when_necessary q s human_sample robot_sample index r last same f =
      rw (last_section-back q s last, same) f

  drop_empty-filled :
      (q : Sequence S F) → All IsFilled q.sections → 0 < length q.sections → drop_empty q ≡ ok q
  unfolding drop_empty Section.is_empty
  drop_empty-filled q h some_section =
      let (s, last) = back-ok q.sections some_section in
      let (kept, filled) = All-back IsFilled q.sections s h last in
      let full : is_nil s.barriers ≡ false = ground arith in rw (last_section-back q s last, full)

-- Where no distance is negative, no human sample differs from itself and the index lies past the
-- last barrier, `check_and_update` of a sequence whose sections all hold barriers, with ranges in
-- order, returns under each update policy. The sections still all hold barriers in the same way,
-- the policy is the same, and there is at most one section more and none less.
pub check_and_update-IsAdvanced :
    {S F : Type 0} ⦃d : Doubles F⦄ ⦃k : SectionKind S F⦄ ⦃e : Samples S⦄ (o : IsOrdered d)
    (q : Sequence S F) (human_sample robot_sample : S) (index : TraceSampleIndex)
    → ((a b : S) → d.le d.zero (k.minimum_human_robot_distance a b) ≡ true)
    → e.differ human_sample human_sample ≡ false
    → index.trace < 2 ^ 64
    → All IsFilled q.sections
    → FollowsLast q index
    → (clear : Bool) × (q' : Sequence S F) × (check_and_update q human_sample robot_sample index
        ≡ ok (clear, q'))
      × IsAdvanced q q'
unfolding check_and_update Advances is_empty add_from Section.construct
check_and_update-IsAdvanced ⦃d⦄ ⦃k⦄ ⦃e⦄ o q human_sample robot_sample index clearance same w h
      follows =
    elim (Bool-cases (is_nil q.sections)) [
      | inl none ↦
          let new : Section _ _ = Section.construct human_sample in
          let (c, q', f, grown) =
            add_from-Advances o clearance robot_sample index w q human_sample h in
          (
            c,
            q',
            rw (
              none,
              section-same q.update_policy (add_from q human_sample) new human_sample robot_sample
                  index (c, q') (back-append q.sections new) same f,
              drop_empty-filled q' grown.filled grown.not_empty,
            ),
            grown,
          )
      | inr some_section ↦
          let (s, last) = back-ok q.sections (ground arith) in
          let (kept, filled) = All-back IsFilled q.sections s h last in
          let (c, q', f, grown) =
            section-Advances o clearance robot_sample index w human_sample q s last kept
              (All-drop_last IsFilled q.sections h) follows (λ _. filled) q.update_policy in
          (c, q', rw (some_section, f, drop_empty-filled q' grown.filled grown.not_empty), grown)
    ]
