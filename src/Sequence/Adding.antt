-- ===== src/Sequence/Adding.antt =====
-- `check_and_update` of a sequence (src/barrier.cpp), under each of the three update policies.
use opera.Prelude.{
  ◌+◌, ◌^◌, ◌≤◌, ◌<◌, ◌≡◌, refl, sym, subst, ap, ◌∙◌, List, [], ◌∷◌, ◌++◌, Bool, true, false,
  Result, ok, arith, length, is_nil, back, drop_last, set_back, All, All-set_back, back-append,
  back-set_back, length-append, length-set_back, back-pos,
}
use opera.Prelude.Doubles.{Doubles, IsOrdered}
use opera.TraceSampleRange.{TraceSampleIndex}
use opera.Barrier.{MinimumDistanceBarrier}
use opera.Section
use opera.Section.{Section, SectionKind}
use opera.Section.Following.{Follows}
use opera.Section.Stepping.{IsKept, Stepped, check_and_update-Stepped}
use opera.Sequence.{
  Sequence, is_empty, last_section, put_last, add_from, check_and_update_last, remove_last_barrier,
}

module _ {S F : Type 0} ⦃d : Doubles F⦄ where
  -- A section with barriers, which are kept.
  abbrev pub IsFilled : Section S F → Type 0
  IsFilled s = IsKept s × (0 < length s.barriers)

  -- The last barrier of the last section, if they exist, lies before the index.
  abbrev pub FollowsLast : Sequence S F → TraceSampleIndex → Type 0
  FollowsLast q index =
      (s : Section S F) (l : MinimumDistanceBarrier F)
      → back q.sections ≡ ok s
      → back s.barriers ≡ ok l
      → Follows index l

  -- The policy, and how the list of sections may grow.
  pub record IsAdvanced (q q' : Sequence S F) : Type 0 where
    pub filled : All IsFilled q'.sections
    pub not_empty : 0 < length q'.sections
    pub same_policy : q'.update_policy ≡ q.update_policy
    pub no_fewer : length q.sections ≤ length q'.sections
    pub one_more : length q'.sections ≤ length q.sections + 1

  unfoldable pub Advances : Sequence S F → Result (Bool × Sequence S F) → Type 0
  Advances q r = (clear : Bool) × (q' : Sequence S F) × (r ≡ ok (clear, q')) × IsAdvanced q q'

module _ {A : Type 0} where
  pub back-full : (xs : List A) {x : A} → back xs ≡ ok x → is_nil xs ≡ false
  back-full [] e = cc
  back-full (x ∷ xs) e = refl

  pub set_back-same : (xs : List A) (x : A) → back xs ≡ ok x → set_back xs x ≡ xs
  set_back-same [] x e = refl
  set_back-same (y ∷ []) x e = let p : y ≡ x = cc in ap (λ z. z ∷ []) (sym p)
  set_back-same (y ∷ z ∷ xs) x e = ap (◌∷◌ y) (set_back-same (z ∷ xs) x e)

  set_back-set_back : (xs : List A) (x y : A) → set_back (set_back xs x) y ≡ set_back xs y
  set_back-set_back [] x y = refl
  set_back-set_back (z ∷ []) x y = refl
  set_back-set_back (z ∷ t ∷ []) x y = refl
  set_back-set_back (z ∷ t ∷ u ∷ xs) x y = ap (◌∷◌ z) (set_back-set_back (t ∷ u ∷ xs) x y)

  drop_last-append : (xs : List A) (x : A) → drop_last (xs ++ x ∷ []) ≡ xs
  drop_last-append [] x = refl
  drop_last-append (y ∷ []) x = refl
  drop_last-append (y ∷ z ∷ xs) x = ap (◌∷◌ y) (drop_last-append (z ∷ xs) x)

  pub All-back : (P : A → Type 0) (xs : List A) (x : A) → All P xs → back xs ≡ ok x → P x
  All-back P [] x h e = absurd (cc)
  All-back P (y ∷ []) x h e = subst P (cc) h.0
  All-back P (y ∷ z ∷ xs) x h e = All-back P (z ∷ xs) x h.1 e

module _ {S F : Type 0} where
  section-eq :
      (s t : Section S F) → s.human_sample ≡ t.human_sample → s.barriers ≡ t.barriers → s ≡ t
  section-eq s t h b = cc

  sequence-eq :
      (q r : Sequence S F) → q.update_policy ≡ r.update_policy → q.sections ≡ r.sections → q ≡ r
  sequence-eq q r h b = cc

  pub last_section-back :
      (q : Sequence S F) (s : Section S F) → back q.sections ≡ ok s → last_section q ≡ ok s
  unfolding last_section is_empty
  last_section-back q s e =
      let full : is_nil q.sections ≡ false = back-full q.sections e in rw (full, e)

  pub construct-IsKept :
      ⦃d : Doubles F⦄ (human_sample : S) → IsKept (Section.construct {F = F} human_sample)
  unfolding Section.construct
  construct-IsKept human_sample = record { distances = tt; ranges = tt }

module _ {S F : Type 0} ⦃d : Doubles F⦄ ⦃k : SectionKind S F⦄ (o : IsOrdered d)
    (clearance : (a b : S) → d.le d.zero (k.minimum_human_robot_distance a b) ≡ true)
    (robot_sample : S) (index : TraceSampleIndex) (w : index.trace < 2 ^ 64) where
  -- A call on the last section, which need not have barriers.
  pub check_and_update_last-Stepped :
      (q : Sequence S F) (s : Section S F)
      → back q.sections ≡ ok s
      → IsKept s
      → FollowsLast q index
      → (clear : Bool) × (s' : Section S F) × (check_and_update_last q robot_sample index
          ≡ ok (clear, put_last q s'))
        × Stepped s clear s'
  unfolding check_and_update_last
  check_and_update_last-Stepped q s e kept follows =
      let (c, s', f, step) =
        check_and_update-Stepped o s robot_sample index (clearance s.human_sample robot_sample) kept
          w (λ l. follows s l e) in
      (c, s', rw (last_section-back q s e, f), step)

  pub put_last-IsAdvanced :
      (q : Sequence S F) (s s' : Section S F) (clear : Bool)
      → back q.sections ≡ ok s
      → All IsFilled (drop_last q.sections)
      → Stepped s clear s'
      → IsAdvanced q (put_last q s')
  unfolding put_last
  put_last-IsAdvanced q s s' clear last filled step = record {
    not_empty = omega (arith, length-set_back q.sections s', back-pos q.sections last);
    filled = All-set_back IsFilled q.sections s' filled (step.kept, step.filled);
    same_policy = refl;
    no_fewer = omega (arith, length-set_back q.sections s');
    one_more = omega (arith, length-set_back q.sections s');
  }

  pub check_and_update_last-Advances :
      (q : Sequence S F) (s : Section S F)
      → back q.sections ≡ ok s
      → IsKept s
      → All IsFilled (drop_last q.sections)
      → FollowsLast q index
      → Advances q (check_and_update_last q robot_sample index)
  unfolding Advances
  check_and_update_last-Advances q s e kept filled follows =
      let (c, s', f, step) = check_and_update_last-Stepped q s e kept follows in
      (c, put_last q s', f, put_last-IsAdvanced q s s' c e filled step)

  add_from-FollowsLast :
      (q : Sequence S F) (human_sample : S) → FollowsLast (add_from q human_sample) index
  unfolding add_from Section.construct
  add_from-FollowsLast q human_sample s l e f =
      let p : Section.construct human_sample ≡ s =
        cc (back-append q.sections (Section.construct human_sample)) in
      let none : back {A = MinimumDistanceBarrier F} [] ≡ ok l = rw (← p) at f in cc

  -- A section for a new human sample, and the first barrier in it.
  pub add_from-Advances :
      (q : Sequence S F) (human_sample : S)
      → All IsFilled q.sections
      → Advances q (check_and_update_last (add_from q human_sample) robot_sample index)
  unfolding Advances add_from put_last Section.construct
  add_from-Advances q human_sample filled =
      let new : Section S F = Section.construct human_sample in
      let (c, s', f, step) =
        check_and_update_last-Stepped (add_from q human_sample) new (back-append q.sections new)
          (construct-IsKept human_sample) (add_from-FollowsLast q human_sample) in
      (
        c,
        put_last (add_from q human_sample) s',
        f,
        record {
          filled =
              All-set_back IsFilled (q.sections ++ new ∷ []) s'
                (rw (drop_last-append q.sections new) filled) (step.kept, step.filled);
          not_empty = omega (
            arith,
            length-set_back (q.sections ++ new ∷ []) s',
            length-append q.sections (new ∷ []),
          );
          same_policy = refl;
          no_fewer = omega (
            arith,
            length-set_back (q.sections ++ new ∷ []) s',
            length-append q.sections (new ∷ []),
          );
          one_more = omega (
            arith,
            length-set_back (q.sections ++ new ∷ []) s',
            length-append q.sections (new ∷ []),
          );
        },
      )

  -- The barrier of a collision is taken away again.
  pub remove_last_barrier-undoes :
      (q : Sequence S F) (s s' : Section S F)
      → back q.sections ≡ ok s
      → Stepped s false s'
      → Section.reaches_collision s ≡ ok false
      → remove_last_barrier (put_last q s') ≡ ok q
  unfolding remove_last_barrier put_last Section.remove_last_barrier Section.is_empty
  remove_last_barrier-undoes q s s' e step none =
      let full : is_nil s'.barriers ≡ false = ground (arith, step.filled) in
      let p : record s' { barriers = drop_last s'.barriers } ≡ s =
        section-eq (record s' { barriers = drop_last s'.barriers }) s step.same_sample
          (step.undone none refl) in
      let back_same : set_back (set_back q.sections s') s ≡ q.sections =
        set_back-set_back q.sections s' s ∙ set_back-same q.sections s e in
      rw (
        last_section-back (put_last q s') s' (back-set_back q.sections s' (back-pos q.sections e)),
        full,
        p,
        back_same,
      )
