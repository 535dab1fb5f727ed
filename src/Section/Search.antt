-- ===== src/Section/Search.antt =====
-- The binary search of `_reuse_element`, against the order of the barriers' distances.
use opera.Prelude.{
  ℕ, zero, suc, ◌+◌, ◌/◌, ◌≤◌, ◌<◌, ◌≡◌, refl, ap, ◌∙◌, subst, List, [], ◌∷◌, Option, none, some,
  true, false, ltb, Bool-cases, inl, inr, ok, arith, length, at, All, All-at, at-lt, at-ok, ltb→lt,
  ltb-false→le,
}
use opera.Prelude.Doubles.{Doubles, IsOrdered}
use opera.Barrier.{MinimumDistanceBarrier}
use opera.Section.{Section, SectionKind}
use opera.Section.Reset.{reuse_loop, search_element, reuse_element}

module _ {F : Type 0} ⦃d : Doubles F⦄ where
  -- The distances never grow from one barrier to a later one.
  abbrev pub IsDescending : List (MinimumDistanceBarrier F) → Type 0
  IsDescending [] = Unit
  IsDescending (b ∷ bs) =
      All (λ c. d.le c.minimum_distance b.minimum_distance ≡ true) bs × IsDescending bs

  -- Up to the element the distances are above the given one, past it they are not; without an
  -- element no distance is.
  abbrev pub Splits : F → List (MinimumDistanceBarrier F) → Option ℕ → Type 0
  Splits m bs none =
      (i : ℕ) (b : MinimumDistanceBarrier F) → at bs i ≡ ok b → d.lt m b.minimum_distance ≡ false
  Splits m bs (some k) =
      (k < length bs)
      × ((i : ℕ) (b : MinimumDistanceBarrier F)
          → at bs i ≡ ok b
          → i ≤ k
          → d.lt m b.minimum_distance ≡ true)
      × ((i : ℕ) (b : MinimumDistanceBarrier F)
          → at bs i ≡ ok b
          → k < i
          → d.lt m b.minimum_distance ≡ false)

module _ {F : Type 0} ⦃d : Doubles F⦄ (o : IsOrdered d) where
  at-IsDescending :
      (bs : List (MinimumDistanceBarrier F)) (i j : ℕ) {b c : MinimumDistanceBarrier F}
      → IsDescending bs
      → i ≤ j
      → at bs i ≡ ok b
      → at bs j ≡ ok c
      → d.le c.minimum_distance b.minimum_distance ≡ true
  at-IsDescending [] i j h k e f = absurd (cc)
  at-IsDescending (x ∷ bs) zero zero {b} {c} h k e f = let p : b ≡ c = cc in rw p (o.le_refl _)
  at-IsDescending (x ∷ bs) zero (suc j) {b} {c} h k e f =
      let p : x ≡ b = cc in
      rw (← p) (All-at (λ y. d.le y.minimum_distance x.minimum_distance ≡ true) bs j h.0 f)
  at-IsDescending (x ∷ bs) (suc i) zero h k e f = absurd (omega arith)
  at-IsDescending (x ∷ bs) (suc i) (suc j) h k e f = at-IsDescending bs i j h.1 (omega arith) e f

module _ {F : Type 0} ⦃d : Doubles F⦄ (m : F) (bs : List (MinimumDistanceBarrier F)) where
  abbrev Above : ℕ → Type 0
  Above i = (b : MinimumDistanceBarrier F) × (at bs i ≡ ok b) × (d.le b.minimum_distance m ≡ false)

  abbrev Below : ℕ → Type 0
  Below i = (b : MinimumDistanceBarrier F) × (at bs i ≡ ok b) × (d.le b.minimum_distance m ≡ true)

  reuse_loop-stop :
      (fuel lower upper : ℕ)
      → ltb (lower + 1) upper ≡ false
      → reuse_loop (suc fuel) m bs lower upper ≡ ok ((upper + lower) / 2)
  unfolding reuse_loop
  reuse_loop-stop fuel lower upper h = ground arith

  reuse_loop-low :
      (fuel lower upper : ℕ) (c : MinimumDistanceBarrier F)
      → ltb (lower + 1) upper ≡ true
      → at bs ((upper + lower) / 2) ≡ ok c
      → d.le c.minimum_distance m ≡ true
      → reuse_loop (suc fuel) m bs lower upper ≡ reuse_loop fuel m bs lower ((upper + lower) / 2)
  unfolding reuse_loop
  reuse_loop-low fuel lower upper c h e l = ground arith

  reuse_loop-high :
      (fuel lower upper : ℕ) (c : MinimumDistanceBarrier F)
      → ltb (lower + 1) upper ≡ true
      → at bs ((upper + lower) / 2) ≡ ok c
      → d.le c.minimum_distance m ≡ false
      → reuse_loop (suc fuel) m bs lower upper ≡ reuse_loop fuel m bs ((upper + lower) / 2) upper
  unfolding reuse_loop
  reuse_loop-high fuel lower upper c h e l = ground arith

  reuse_loop-finds :
      (fuel lower upper : ℕ)
      → lower < upper
      → upper < length bs
      → upper < fuel + lower
      → Above lower
      → Below upper
      → (i : ℕ) × (reuse_loop fuel m bs lower upper ≡ ok i) × Above i × Below (suc i)
  reuse_loop-finds zero lower upper h k f a b = absurd (omega arith)
  reuse_loop-finds (suc fuel) lower upper h k f a b = elim (Bool-cases (ltb (lower + 1) upper)) [
    | inl more ↦
        let mid : ℕ = (upper + lower) / 2 in
        let inside : (lower < mid) × (mid < upper) = (
          omega (arith, ltb→lt (lower + 1) upper more),
          omega (arith, ltb→lt (lower + 1) upper more),
        ) in
        let (c, e) = at-ok bs mid (omega arith) in
        elim (Bool-cases (d.le c.minimum_distance m)) [
          | inl low ↦
              rw (reuse_loop-low fuel lower upper c more e low)
                (reuse_loop-finds fuel lower mid inside.0 (omega arith) (omega arith) a (c, e, low))
          | inr high ↦
              rw (reuse_loop-high fuel lower upper c more e high)
                (reuse_loop-finds fuel mid upper inside.1 k (omega arith) (c, e, high) b)
        ]
    | inr done ↦
        let e : (upper + lower) / 2 ≡ lower = omega (arith, ltb-false→le (lower + 1) upper done) in
        let s : upper ≡ suc lower = omega (arith, ltb-false→le (lower + 1) upper done) in
        (lower, reuse_loop-stop fuel lower upper done ∙ ap ok e, a, subst Below s b)
  ]

module _ {F : Type 0} ⦃d : Doubles F⦄ (o : IsOrdered d) (m : F) where
  lt_of_not_le : (a : F) → d.le a m ≡ false → d.lt m a ≡ true
  lt_of_not_le a h = rw (o.lt_not_le m a, h)

  not_lt_of_le : (a : F) → d.le a m ≡ true → d.lt m a ≡ false
  not_lt_of_le a h = rw (o.lt_not_le m a, h)

  not_le_of_lt : (a : F) → d.lt m a ≡ true → d.le a m ≡ false
  not_le_of_lt a h = elim (Bool-cases (d.le a m)) [ inl e ↦ cc (h, not_lt_of_le a e) | inr e ↦ e ]

  -- A distance that is at least one above `m` is above it.
  not_le_up : (a b : F) → d.le a m ≡ false → d.le a b ≡ true → d.le b m ≡ false
  not_le_up a b h k = elim (Bool-cases (d.le b m)) [
    | inl e ↦ cc (h, o.le_trans a b m k e)
    | inr e ↦ e
  ]

  Splits-at :
      (bs : List (MinimumDistanceBarrier F)) (i : ℕ)
      → IsDescending bs
      → Above m bs i
      → Below m bs (suc i)
      → Splits m bs (some i)
  Splits-at bs i sorted (a, e, h) (b, f, g) = (
    omega (arith, at-lt bs (suc i) f),
    λ j c at_j j≤i. lt_of_not_le c.minimum_distance (
        not_le_up a.minimum_distance c.minimum_distance h
          (at-IsDescending o bs j i sorted j≤i at_j e)),
    λ j c at_j i<j. not_lt_of_le c.minimum_distance (
        o.le_trans c.minimum_distance b.minimum_distance m
          (at-IsDescending o bs (suc i) j sorted i<j f at_j) g),
  )

  le_of_not_lt : (a : F) → d.lt m a ≡ false → d.le a m ≡ true
  le_of_not_lt a h = elim (Bool-cases (d.le a m)) [ inl e ↦ e | inr e ↦ cc (h, lt_of_not_le a e) ]

  Splits-none :
      (x : MinimumDistanceBarrier F) (bs : List (MinimumDistanceBarrier F))
      → IsDescending (x ∷ bs)
      → d.le x.minimum_distance m ≡ true
      → Splits m (x ∷ bs) none
  Splits-none x bs sorted low i c e = not_lt_of_le c.minimum_distance (
      o.le_trans c.minimum_distance x.minimum_distance m
        (at-IsDescending o (x ∷ bs) 0 i sorted (omega arith) refl e) low)

  Splits-last :
      (bs : List (MinimumDistanceBarrier F)) (n : ℕ) (last : MinimumDistanceBarrier F)
      → IsDescending bs
      → length bs ≡ suc n
      → at bs n ≡ ok last
      → d.lt m last.minimum_distance ≡ true
      → Splits m bs (some n)
  Splits-last bs n last sorted size e above = (
    omega arith,
    λ i c f i≤n. lt_of_not_le c.minimum_distance (
        not_le_up last.minimum_distance c.minimum_distance
          (not_le_of_lt last.minimum_distance above) (at-IsDescending o bs i n sorted i≤n f e)),
    λ i c f n<i. absurd (omega (arith, at-lt bs i f)),
  )

  -- The search starts between an element above and a later one that is not.
  length-pos_of_split :
      (x : MinimumDistanceBarrier F) (bs : List (MinimumDistanceBarrier F))
      {last : MinimumDistanceBarrier F}
      → at (x ∷ bs) (length bs) ≡ ok last
      → d.le x.minimum_distance m ≡ false
      → d.le last.minimum_distance m ≡ true
      → 0 < length bs
  length-pos_of_split x [] e h k = cc
  length-pos_of_split x (y ∷ bs) e h k = omega arith

  search_element-Splits :
      (bs : List (MinimumDistanceBarrier F))
      → IsDescending bs
      → (r : Option ℕ) × (search_element m bs ≡ ok r) × Splits m bs r
  unfolding search_element
  search_element-Splits [] sorted = (none, refl, λ i b e. absurd (cc))
  search_element-Splits (x ∷ bs) sorted =
      let (last, e) = at-ok (x ∷ bs) (length bs) (omega arith) in
      elim (Bool-cases (d.le x.minimum_distance m)) [
        | inl low ↦ (none, rw (e, low) refl, Splits-none x bs sorted low)
        | inr high ↦ elim (Bool-cases (d.lt m last.minimum_distance)) [
          | inl above ↦ (
            some (length bs),
            rw (e, high, above) refl,
            Splits-last (x ∷ bs) (length bs) last sorted refl e above,
          )
          | inr below ↦
              let under : d.le last.minimum_distance m ≡ true =
                le_of_not_lt last.minimum_distance below in
              let (i, found, a, b) =
                reuse_loop-finds m (x ∷ bs) (suc (length bs)) 0 (length bs)
                  (length-pos_of_split x bs e high under) (omega arith) (omega arith)
                  (x, refl, high) (last, e, under) in
              (some i, rw (e, high, below, found) refl, Splits-at (x ∷ bs) i sorted a b)
        ]
      ]

-- On barriers whose distances never grow, `_reuse_element` returns, and its binary search finds the
-- last barrier whose distance is above the one from the other human sample to the reference one:
-- that barrier and all before it are above, all after it are not, and -1 says that none is.
pub reuse_element-Splits :
    {S F : Type 0} ⦃d : Doubles F⦄ ⦃k : SectionKind S F⦄ (o : IsOrdered d) (s : Section S F)
    (other : S)
    → IsDescending s.barriers
    → (r : Option ℕ) × (reuse_element s other ≡ ok r)
      × Splits (k.maximum_human_human_distance s.human_sample other) s.barriers r
unfolding reuse_element
reuse_element-Splits o s other sorted = search_element-Splits o _ s.barriers sorted
