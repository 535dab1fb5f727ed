-- ===== src/Section/Stepping.antt =====
-- One call of `check_and_update` on a section (src/barrier.cpp), as the sequence of sections uses it:
-- what a call that finds a collision adds is its last barrier.
use opera.Prelude.{
  ◌^◌, ◌<◌, ◌≡◌, refl, sym, subst, ap, ◌∙◌, inl, inr, List, [], ◌∷◌, ◌++◌, Bool, true, false,
  Bool-cases, ok, ◌>>=◌, >>=-eq-ok, ok_pair, arith, length, back, drop_last, set_back, All,
  All-set_back, All-drop_last, length-append, length-set_back, back-pos, is_nil,
}
use opera.Prelude.Doubles.{Doubles, IsOrdered}
use opera.TraceSampleRange.{TraceSampleIndex, TraceSampleRange}
use opera.TraceSampleRange
use opera.Barrier.{MinimumDistanceBarrier}
use opera.Section.{
  Section, SectionKind, is_empty, add_barrier, keep_minimum, reaches_collision, check_and_update,
}
use opera.Section.Minimum.{
  minimum, current_minimum_distance-minimum, reaches_collision-last, update_with-minimum_distance,
  Updates, adds, extends, keep_minimum-Updates,
}
use opera.Section.Ranges.{RangesFrom}
use opera.Section.Following.{Follows, check_and_update-returns, reaches_collision-returns}

module _ {ℓ} {A : Type ℓ} where
  drop_last-append : (xs : List A) (x : A) → drop_last (xs ++ x ∷ []) ≡ xs
  drop_last-append [] x = refl
  drop_last-append (y ∷ []) x = refl
  drop_last-append (y ∷ z ∷ xs) x = ap (◌∷◌ y) (drop_last-append (z ∷ xs) x)

  All-back : (P : A → Type 0) (xs : List A) (x : A) → All P xs → back xs ≡ ok x → P x
  All-back P [] x h e = absurd (cc)
  All-back P (y ∷ []) x h e = subst P (cc) h.0
  All-back P (y ∷ z ∷ xs) x h e = All-back P (z ∷ xs) x h.1 e

  All-append_one : (P : A → Type 0) (xs : List A) (x : A) → All P xs → P x → All P (xs ++ x ∷ [])
  All-append_one P [] x h p = (p, tt)
  All-append_one P (y ∷ xs) x h p = (h.0, All-append_one P xs x h.1 p)

module _ {S F : Type 0} ⦃d : Doubles F⦄ where
  -- No distance is negative, and the ranges are in order and not empty.
  pub record IsKept (s : Section S F) : Type 0 where
    pub distances : All (λ b. d.le d.zero b.minimum_distance ≡ true) s.barriers
    pub ranges : RangesFrom 0 s.barriers

  reaches_collision-nil :
      (s : Section S F) → is_nil s.barriers ≡ true → reaches_collision s ≡ ok false
  unfolding reaches_collision is_empty
  reaches_collision-nil s h = rw h

-- What a call leaves: the section is kept and has barriers, and after a call that finds the first
-- collision the barriers before the last are those of before.
pub record Stepped {S F : Type 0} ⦃d : Doubles F⦄ (s : Section S F) (clear : Bool)
    (s' : Section S F) : Type 0 where
  pub kept : IsKept s'
  pub filled : 0 < length s'.barriers
  pub same_sample : s'.human_sample ≡ s.human_sample
  pub undone : reaches_collision s ≡ ok false → clear ≡ false → drop_last s'.barriers ≡ s.barriers

module _ {S F : Type 0} ⦃d : Doubles F⦄ (o : IsOrdered d) (s : Section S F) (distance : F)
    (index : TraceSampleIndex) where
  -- A last barrier at a positive distance does not lie above a distance that is not positive.
  not_touching :
      (l : MinimumDistanceBarrier F)
      → back s.barriers ≡ ok l
      → d.le d.zero l.minimum_distance ≡ true
      → d.le l.minimum_distance distance ≡ true
      → reaches_collision s ≡ ok false
      → d.lt d.zero distance ≡ false
      → ⊥
  not_touching l at_back low le none touching =
      let clear : ok (d.eq l.minimum_distance d.zero) ≡ ok false =
        sym (reaches_collision-last s l at_back) ∙ none in
      let clear' : d.eq l.minimum_distance d.zero ≡ false = cc in
      ground (
        arith,
        o.lt_not_le d.zero distance,
        o.le_trans l.minimum_distance distance d.zero,
        o.le_antisymm l.minimum_distance d.zero,
        o.eq_refl d.zero,
      )

  Updates-Stepped :
      (s' : Section S F)
      → d.le d.zero distance ≡ true
      → IsKept s
      → RangesFrom 0 s'.barriers
      → Updates s distance index s'
      → Stepped s (d.lt d.zero distance) s'
  unfolding add_barrier
  Updates-Stepped s' pos k r (adds new e) =
      let b : MinimumDistanceBarrier F = record {
        minimum_distance = distance;
        range = TraceSampleRange.construct index;
      } in
      let f : s'.barriers ≡ s.barriers ++ b ∷ [] = ap (λ t. t.barriers) e in
      record {
        kept = record {
          distances = rw f (
              All-append_one (λ c. d.le d.zero c.minimum_distance ≡ true) s.barriers b k.distances
                pos);
          ranges = r;
        };
        filled = rw f (omega (arith, length-append s.barriers (b ∷ [])));
        same_sample = ap (λ t. t.human_sample) e;
        undone = λ _ _. rw f (drop_last-append s.barriers b);
      }
  Updates-Stepped s' pos k r (extends l b at_back u le e) =
      let f : s'.barriers ≡ set_back s.barriers b = ap (λ t. t.barriers) e in
      let low : d.le d.zero l.minimum_distance ≡ true =
        All-back (λ c. d.le d.zero c.minimum_distance ≡ true) s.barriers l k.distances at_back in
      record {
        kept = record {
          distances = rw f (
              All-set_back (λ c. d.le d.zero c.minimum_distance ≡ true) s.barriers b
                (All-drop_last (λ c. d.le d.zero c.minimum_distance ≡ true) s.barriers k.distances)
                (rw (update_with-minimum_distance l index u) low));
          ranges = r;
        };
        filled = rw f (omega (arith, length-set_back s.barriers b, back-pos s.barriers at_back));
        same_sample = ap (λ t. t.human_sample) e;
        undone = λ none touching. absurd (not_touching l at_back low le none touching);
      }

-- On a section whose distances are not negative and whose ranges are in order and not empty, where
-- no distance to a robot sample is negative, `check_and_update` for an index past the last barrier
-- returns. It leaves a section of the same human sample that is kept in the same way and has a
-- barrier; where it returns false and no collision was reached before, the barriers but the last
-- are those that the section had.
pub check_and_update-Stepped :
    {S F : Type 0} ⦃d : Doubles F⦄ ⦃k : SectionKind S F⦄ (o : IsOrdered d) (s : Section S F)
    (robot_sample : S) (index : TraceSampleIndex)
    → d.le d.zero (k.minimum_human_robot_distance s.human_sample robot_sample) ≡ true
    → IsKept s
    → index.trace < 2 ^ 64
    → ((l : MinimumDistanceBarrier F) → back s.barriers ≡ ok l → Follows index l)
    → (clear : Bool) × (s' : Section S F) × (check_and_update s robot_sample index ≡ ok (clear, s'))
      × Stepped s clear s'
unfolding check_and_update
check_and_update-Stepped ⦃d⦄ ⦃k⦄ o s robot_sample index pos kept w follows =
    let D : _ = k.minimum_human_robot_distance s.human_sample robot_sample in
    let (c, s', e, ranges') =
      check_and_update-returns o s robot_sample index kept.ranges w follows in
    let (reached, r) = reaches_collision-returns o s index kept.ranges w follows in
    elim (Bool-cases reached) [
      | inl f ↦ (
        false,
        s,
        rw (r, f),
        record {
          kept = kept;
          filled = elim (Bool-cases (is_nil s.barriers)) [
            | inl empty ↦ cc (reaches_collision-nil s empty)
            | inr full ↦ ground arith
          ];
          same_sample = refl;
          undone = λ none _. cc;
        },
      )
      | inr f ↦
          let h' : (keep_minimum s D (minimum s.barriers) index >>= λ t. ok (d.lt d.zero D, t))
              ≡ ok (c, s') =
            rw (r, f, current_minimum_distance-minimum s) at e in
          let (t, g, same) =
            >>=-eq-ok (keep_minimum s D (minimum s.barriers) index) (λ t. ok (d.lt d.zero D, t))
              h' in
          let (done, there) = ok_pair (d.lt d.zero D) c t s' same in
          (
            c,
            s',
            e,
            rw (← done) (
                Updates-Stepped o s D index s' pos kept ranges'
                  (keep_minimum-Updates o s D index (rw (← there) g))),
          )
    ]
