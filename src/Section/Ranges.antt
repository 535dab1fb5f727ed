-- ===== src/Section/Ranges.antt =====
-- The order of the barriers' index ranges in a section, through the loops of `reset`.
use opera.Prelude.{
  ℕ, zero, suc, ◌+◌, ◌-◌, ◌≤◌, ◌<◌, ◌≡◌, sym, ap, ◌∙◌, inl, inr, List, [], ◌∷◌, ltb, Bool-cases, ok,
  arith, length, back, drop_last, set_back, take, All, length-drop_last, ltb→lt, ltb-false→le,
  take-drop_last, take-all,
}
use opera.TraceSampleRange.Reindex.{past}
use opera.Barrier.{MinimumDistanceBarrier}
use opera.Section.Reset.{keep_up_to_loop}

module _ {F : Type 0} where
  -- The first trace index past the barrier's range.
  abbrev pub past_of : MinimumDistanceBarrier F → ℕ
  past_of b = past b.range

  -- No range is empty, and each starts at the maximum trace index of the one before or later.
  abbrev pub RangesFrom : ℕ → List (MinimumDistanceBarrier F) → Type 0
  RangesFrom low [] = Unit
  RangesFrom low (b ∷ bs) =
      (0 < length b.range.upper_bounds)
      × (low ≤ b.range.initial.trace + 1)
      × RangesFrom (past_of b) bs

  pub RangesFrom-drop_last :
      (low : ℕ) (bs : List (MinimumDistanceBarrier F))
      → RangesFrom low bs
      → RangesFrom low (drop_last bs)
  RangesFrom-drop_last low [] r = tt
  RangesFrom-drop_last low (b ∷ []) r = tt
  RangesFrom-drop_last low (b ∷ c ∷ bs) r =
      (r.0, r.1, RangesFrom-drop_last (past_of b) (c ∷ bs) r.2)

  pub RangesFrom-weaken :
      (low low' : ℕ) (bs : List (MinimumDistanceBarrier F))
      → low' ≤ low
      → RangesFrom low bs
      → RangesFrom low' bs
  RangesFrom-weaken low low' [] h r = tt
  RangesFrom-weaken low low' (b ∷ bs) h r = (r.0, omega arith, r.2)

  pub RangesFrom-take :
      (n low : ℕ) (bs : List (MinimumDistanceBarrier F))
      → RangesFrom low bs
      → RangesFrom low (take n bs)
  RangesFrom-take zero low bs r = tt
  RangesFrom-take (suc n) low [] r = tt
  RangesFrom-take (suc n) low (b ∷ bs) r = (r.0, r.1, RangesFrom-take n (past_of b) bs r.2)

  -- All but the last end where the last begins, or before.
  pub RangesFrom-before :
      (low : ℕ) (bs : List (MinimumDistanceBarrier F)) (l : MinimumDistanceBarrier F)
      → RangesFrom low bs
      → back bs ≡ ok l
      → (low ≤ l.range.initial.trace + 1)
        × All (λ b. past_of b ≤ l.range.initial.trace + 1) (drop_last bs)
  RangesFrom-before low [] l r e = absurd (cc)
  RangesFrom-before low (b ∷ []) l r e = let p : b ≡ l = cc in rw (← p) (r.1, tt)
  RangesFrom-before low (b ∷ c ∷ bs) l r e =
      let (above, all) = RangesFrom-before (past_of b) (c ∷ bs) l r.2 e in
      (omega arith, (above, all))

  pub RangesFrom-back :
      (low : ℕ) (bs : List (MinimumDistanceBarrier F)) (l : MinimumDistanceBarrier F)
      → RangesFrom low bs
      → back bs ≡ ok l
      → (0 < length l.range.upper_bounds) × (low ≤ past_of l) × All (λ b. past_of b ≤ past_of l) bs
  RangesFrom-back low [] l r e = absurd (cc)
  RangesFrom-back low (b ∷ []) l r e =
      let p : b ≡ l = cc in rw (← p) (r.0, omega arith, (omega arith, tt))
  RangesFrom-back low (b ∷ c ∷ bs) l r e =
      let (pos, above, all) = RangesFrom-back (past_of b) (c ∷ bs) l r.2 e in
      (pos, omega arith, (above, all))

  pub RangesFrom-set_back :
      (low : ℕ) (bs : List (MinimumDistanceBarrier F)) (l l' : MinimumDistanceBarrier F)
      → RangesFrom low bs
      → back bs ≡ ok l
      → l'.range.initial ≡ l.range.initial
      → 0 < length l'.range.upper_bounds
      → RangesFrom low (set_back bs l')
  RangesFrom-set_back low [] l l' r e h k = absurd (cc)
  RangesFrom-set_back low (b ∷ []) l l' r e h k = let p : b ≡ l = cc in (k, rw (h, ← p) r.1, tt)
  RangesFrom-set_back low (b ∷ c ∷ bs) l l' r e h k =
      (r.0, r.1, RangesFrom-set_back (past_of b) (c ∷ bs) l l' r.2 e h k)

  pub keep_up_to_loop-take :
      (fuel k : ℕ) (bs : List (MinimumDistanceBarrier F))
      → k < length bs
      → length bs < fuel
      → keep_up_to_loop fuel bs k ≡ ok (take (suc k) bs)
  unfolding keep_up_to_loop
  keep_up_to_loop-take zero k bs h f = absurd (omega arith)
  keep_up_to_loop-take (suc fuel) k [] h f = absurd (omega arith)
  keep_up_to_loop-take (suc fuel) k (b ∷ bs) h f = elim (Bool-cases (ltb k (length (b ∷ bs) - 1))) [
    | inl more ↦
        let lt : k < length (b ∷ bs) - 1 = ltb→lt k _ more in
        rw more (
          keep_up_to_loop-take fuel k (drop_last (b ∷ bs))
            (omega (arith, length-drop_last (b ∷ bs))) (omega (arith, length-drop_last (b ∷ bs)))
          ∙ ap ok (take-drop_last (suc k) (b ∷ bs) (omega arith)))
    | inr done ↦
        rw done (ap ok (sym (take-all (suc k) (b ∷ bs) (omega (arith, ltb-false→le k _ done)))))
  ]
