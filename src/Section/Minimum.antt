-- ===== src/Section/Minimum.antt =====
-- `check_and_update` of src/barrier.cpp keeps the minimum of the distances that it has seen.
use opera.Prelude.{
  ◌≡◌, refl, sym, ap, ◌∙◌, List, [], ◌∷◌, ◌++◌, Bool, true, false, if◌then◌else◌, Bool-cases, ◌⊎◌,
  inl, inr, Result, ok, err, ◌>>=◌, >>=-eq-ok, ok_pair, arith, is_nil, back, set_back, not, ◌||◌,
  back-append, back-set_back, at-pred_length, back-ok, back-pos,
}
use opera.Prelude.Doubles.{Doubles, IsOrdered}
use opera.TraceSampleRange.{TraceSampleIndex, TraceSampleRange}
use opera.TraceSampleRange
use opera.Barrier.{MinimumDistanceBarrier, update_with, is_collision}
use opera.Section.{
  Section, SectionKind, is_empty, last_barrier, reaches_collision, current_minimum_distance,
  check_and_update, update_back, keep_minimum, add_barrier,
}
use opera.Section.Search.{IsDescending}
use opera.Section.Descending.{IsDescending-append, IsDescending-set_back}

module _ {F : Type 0} where
  pub update_with-minimum_distance :
      (b : MinimumDistanceBarrier F) (index : TraceSampleIndex) {b' : MinimumDistanceBarrier F}
      → update_with b index ≡ ok b'
      → b'.minimum_distance ≡ b.minimum_distance
  unfolding update_with
  update_with-minimum_distance b index h = grind arith

module _ {F : Type 0} ⦃d : Doubles F⦄ where
  -- What the last barrier of a list says of the section.
  abbrev minimum_of : Result (MinimumDistanceBarrier F) → F
  minimum_of (ok b) = b.minimum_distance
  minimum_of (err e) = d.infinity

  abbrev pub minimum : List (MinimumDistanceBarrier F) → F
  minimum bs = minimum_of (back bs)

  -- std::min on distances, for the values that `check_and_update` compares.
  abbrev pub least : F → F → F
  least a b = if d.lt b a then b else a

module _ {S F : Type 0} ⦃d : Doubles F⦄ where
  pub current_minimum_distance-minimum :
      (s : Section S F) → current_minimum_distance s ≡ ok (minimum s.barriers)
  unfolding current_minimum_distance is_empty
  current_minimum_distance-minimum s = cases s.barriers refl
    where
      cases :
          (bs : List (MinimumDistanceBarrier F))
          → s.barriers ≡ bs
          → current_minimum_distance s ≡ ok (minimum s.barriers)
      cases [] e = rw e
      cases (b ∷ bs) e = let (l, f) = back-ok (b ∷ bs) (omega arith) in rw (e, f)

  pub reaches_collision-last :
      (s : Section S F) (b : MinimumDistanceBarrier F)
      → back s.barriers ≡ ok b
      → reaches_collision s ≡ ok (d.eq b.minimum_distance d.zero)
  unfolding reaches_collision is_empty last_barrier is_collision
  reaches_collision-last s b e = cases s.barriers refl
    where
      cases :
          (bs : List (MinimumDistanceBarrier F))
          → s.barriers ≡ bs
          → reaches_collision s ≡ ok (d.eq b.minimum_distance d.zero)
      cases [] f =
          let z : back {A = MinimumDistanceBarrier F} [] ≡ ok b = ap back (sym f) ∙ e in cc z
      cases (x ∷ bs) f = rw (f, at-pred_length (x ∷ bs) (omega arith), ap back (sym f) ∙ e)

-- How the barriers change where no earlier collision is found.
pub data Updates {S F : Type 0} ⦃d : Doubles F⦄ (s : Section S F) (distance : F)
    (index : TraceSampleIndex) (s' : Section S F) : Type 0 where
  adds :
      (is_nil s.barriers ≡ true) ⊎ (d.lt distance (minimum s.barriers) ≡ true)
      → s' ≡ add_barrier s distance (TraceSampleRange.construct index)
      → Updates s distance index s'
  extends :
      (l b : MinimumDistanceBarrier F)
      → back s.barriers ≡ ok l
      → update_with l index ≡ ok b
      → d.le l.minimum_distance distance ≡ true
      → s' ≡ record s { barriers = set_back s.barriers b }
      → Updates s distance index s'

module _ {S F : Type 0} ⦃d : Doubles F⦄ (o : IsOrdered d) (s : Section S F) (distance : F)
    (index : TraceSampleIndex) where
  keep_minimum-extends :
      {s' : Section S F} (l : MinimumDistanceBarrier F)
      → back s.barriers ≡ ok l
      → d.lt distance l.minimum_distance ≡ false
      → keep_minimum s distance (minimum s.barriers) index ≡ ok s'
      → is_nil s.barriers ≡ false
      → Updates s distance index s'
  unfolding keep_minimum update_back
  keep_minimum-extends {s'} l e below h full =
      let le : d.le l.minimum_distance distance ≡ true =
        ground (arith, o.lt_not_le distance l.minimum_distance) in
      let h' : (update_with l index >>= λ b. ok (record s { barriers = set_back s.barriers b }))
          ≡ ok s' =
        rw (e, full, below, le) at h in
      let (b, u, f) =
        >>=-eq-ok (update_with l index) (λ b. ok (record s { barriers = set_back s.barriers b }))
          h' in
      extends l b e u le (cc)

  not_below :
      (l : MinimumDistanceBarrier F)
      → back s.barriers ≡ ok l
      → (is_nil s.barriers || d.lt distance (minimum s.barriers)) ≡ false
      → d.lt distance l.minimum_distance ≡ false
  not_below l e h = ground arith

  pub keep_minimum-Updates :
      {s' : Section S F}
      → keep_minimum s distance (minimum s.barriers) index ≡ ok s'
      → Updates s distance index s'
  unfolding keep_minimum
  keep_minimum-Updates {s'} h =
      elim (Bool-cases (is_nil s.barriers || d.lt distance (minimum s.barriers))) [
        | inl new ↦ adds (ground arith) (ground arith)
        | inr old ↦
            let full : is_nil s.barriers ≡ false = ground arith in
            let (l, e) = back-ok s.barriers (ground arith) in
            keep_minimum-extends l e (not_below l e old) h full
      ]

module _ {F : Type 0} ⦃d : Doubles F⦄ (o : IsOrdered d) where
  eq_zero-not_positive : (a : F) → d.le d.zero a ≡ true → d.eq a d.zero ≡ not (d.lt d.zero a)
  eq_zero-not_positive a h = elim (Bool-cases (d.le a d.zero)) [
    | inl e ↦
        let p : a ≡ d.zero = o.le_antisymm a d.zero e h in
        ground (arith, o.lt_not_le d.zero a, o.eq_refl d.zero)
    | inr e ↦ ground (arith, o.lt_not_le d.zero a, o.eq_sound a d.zero, o.le_refl d.zero)
  ]

  infinity_le : (a : F) → d.lt a d.infinity ≡ false → a ≡ d.infinity
  infinity_le a h =
      o.le_antisymm a d.infinity (o.le_infinity a) (ground (arith, o.lt_not_le a d.infinity))

  lt→le : (a b : F) → d.lt a b ≡ true → d.le a b ≡ true
  lt→le a b h = ground (arith, o.lt_not_le a b, o.le_total b a)

module _ {S F : Type 0} ⦃d : Doubles F⦄ (o : IsOrdered d) (s : Section S F) (distance : F)
    (index : TraceSampleIndex) where
  abbrev IsMinimumOf : Section S F → Type 0
  IsMinimumOf s' =
      (minimum s'.barriers ≡ least (minimum s.barriers) distance)
      × (reaches_collision s' ≡ ok (not (d.lt d.zero distance)))
      × IsDescending s'.barriers

  adds-minimum :
      (is_nil s.barriers ≡ true) ⊎ (d.lt distance (minimum s.barriers) ≡ true)
      → distance ≡ least (minimum s.barriers) distance
  adds-minimum (inl h) = elim (Bool-cases (d.lt distance d.infinity)) [
    | inl e ↦ ground (arith)
    | inr e ↦ ground (arith, infinity_le o distance)
  ]
  adds-minimum (inr h) = rw h

  adds-IsDescending :
      (bs : List (MinimumDistanceBarrier F)) (b : MinimumDistanceBarrier F)
      → (is_nil bs ≡ true) ⊎ (d.lt b.minimum_distance (minimum bs) ≡ true)
      → IsDescending bs
      → IsDescending (bs ++ b ∷ [])
  adds-IsDescending [] b h sorted = (tt, tt)
  adds-IsDescending (x ∷ bs) b (inl h) sorted = cc
  adds-IsDescending (x ∷ bs) b (inr h) sorted =
      let (l, e) = back-ok (x ∷ bs) (omega arith) in
      let below : d.lt b.minimum_distance l.minimum_distance ≡ true = rw e at h in
      IsDescending-append o (x ∷ bs) l b sorted e
        (lt→le o b.minimum_distance l.minimum_distance below)

  clear_last :
      (l : MinimumDistanceBarrier F)
      → back s.barriers ≡ ok l
      → reaches_collision s ≡ ok false
      → d.eq l.minimum_distance d.zero ≡ false
  clear_last l e r = cc (reaches_collision-last s l e)

  kept_minimum : (m : F) → d.le m distance ≡ true → m ≡ least m distance
  kept_minimum m h = ground (arith, o.lt_not_le distance m)

  stays_clear :
      (m : F)
      → d.le m distance ≡ true
      → d.eq m d.zero ≡ false
      → d.le d.zero m ≡ true
      → ok (d.eq m d.zero) ≡ ok (not (d.lt d.zero distance))
  stays_clear m h e z = ground (
    arith,
    o.lt_not_le d.zero distance,
    o.le_trans m distance d.zero,
    o.le_antisymm m d.zero,
    o.eq_refl d.zero,
  )

  Updates-IsMinimumOf :
      {s' : Section S F}
      → d.le d.zero distance ≡ true
      → d.le d.zero (minimum s.barriers) ≡ true
      → reaches_collision s ≡ ok false
      → IsDescending s.barriers
      → Updates s distance index s'
      → IsMinimumOf s'
  unfolding add_barrier
  Updates-IsMinimumOf {s'} pos posm r sorted (adds new e) =
      let b : MinimumDistanceBarrier F = record {
        minimum_distance = distance;
        range = TraceSampleRange.construct index;
      } in
      let last : back (s.barriers ++ b ∷ []) ≡ ok b = back-append s.barriers b in
      rw e (
        rw last (adds-minimum new),
        reaches_collision-last (add_barrier s distance (TraceSampleRange.construct index)) b last
            ∙ ap ok (eq_zero-not_positive o distance pos),
        adds-IsDescending s.barriers b new sorted,
      )
  Updates-IsMinimumOf {s'} pos posm r sorted (extends l b at_back u le e) =
      let last : back (set_back s.barriers b) ≡ ok b =
        back-set_back s.barriers b (back-pos s.barriers at_back) in
      let same : b.minimum_distance ≡ l.minimum_distance = update_with-minimum_distance l index u in
      let clear : d.eq l.minimum_distance d.zero ≡ false = clear_last l at_back r in
      let nonneg : d.le d.zero l.minimum_distance ≡ true = rw at_back at posm in
      rw e (
        rw (last, at_back, same) (kept_minimum l.minimum_distance le),
        reaches_collision-last (record s { barriers = set_back s.barriers b }) b last
            ∙ rw same (stays_clear l.minimum_distance le clear nonneg),
        IsDescending-set_back o s.barriers l b sorted at_back same,
      )

-- A section that holds non-negative distances in descending order and has reached no collision: a
-- call of `check_and_update` that returns keeps the order, makes the current minimum distance the
-- lesser of what it was and the new distance, returns whether the new distance is positive, and
-- reaches a collision exactly if it returns false.
pub check_and_update-minimum :
    {S F : Type 0} ⦃d : Doubles F⦄ ⦃k : SectionKind S F⦄ (o : IsOrdered d) (s : Section S F)
    (robot_sample : S) (index : TraceSampleIndex) (clear : Bool) (s' : Section S F) (m : F)
    → IsDescending s.barriers
    → current_minimum_distance s ≡ ok m
    → d.le d.zero m ≡ true
    → d.le d.zero (k.minimum_human_robot_distance s.human_sample robot_sample) ≡ true
    → reaches_collision s ≡ ok false
    → check_and_update s robot_sample index ≡ ok (clear, s')
    → IsDescending s'.barriers
      × (current_minimum_distance s'
          ≡ ok (least m (k.minimum_human_robot_distance s.human_sample robot_sample)))
      × (clear ≡ d.lt d.zero (k.minimum_human_robot_distance s.human_sample robot_sample))
      × (reaches_collision s' ≡ ok (not clear))
unfolding check_and_update
check_and_update-minimum ⦃d⦄ ⦃k⦄ o s robot_sample index clear s' m sorted cur posm pos r h =
    let D : _ = k.minimum_human_robot_distance s.human_sample robot_sample in
    let e : m ≡ minimum s.barriers = cc (current_minimum_distance-minimum s) in
    let h' : (keep_minimum s D (minimum s.barriers) index >>= λ t. ok (d.lt d.zero D, t))
        ≡ ok (clear, s') =
      rw (r, current_minimum_distance-minimum s) at h in
    let (t, f, g) =
      >>=-eq-ok (keep_minimum s D (minimum s.barriers) index) (λ t. ok (d.lt d.zero D, t)) h' in
    let (done, same) = ok_pair (d.lt d.zero D) clear t s' g in
    let (low, reached, sorted') =
      Updates-IsMinimumOf o s D index pos (rw e at posm) r sorted
        (keep_minimum-Updates o s D index f) in
    (
      rw (← same) sorted',
      rw (← same, e) (current_minimum_distance-minimum t ∙ ap ok low),
      sym done,
      rw (← same, ← done) reached,
    )
