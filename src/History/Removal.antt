-- ===== src/History/Removal.antt =====
-- Forgetting what is old of a human's history (src/state.cpp) leaves the answers of today.
use opera.Prelude.{
  ℕ, suc, ◌≤◌, ◌<◌, ◌≡◌, refl, sym, ◌∙◌, inl, inr, List, [], ◌∷◌, true, false, ltb, Bool-cases, ok,
  err, assertion, is_nil, take, drop, All, leb, ltb→lt, ltb-false→le,
}
use opera.History.{
  HumanStateInstance, HumanStateHistory, reversed, first_within, latest_within, any_within,
  has_instances_within, drop_older, remove_older_than,
}
use opera.History.Latest.{first_within-append, reversed-IsLast}

module _ {S : Type 0} where
  drop_older-first_within :
      (is : List (HumanStateInstance S)) (bound t : ℕ)
      → any_within (drop_older is bound) t ≡ true
      → first_within (reversed (drop_older is bound)) t ≡ first_within (reversed is) t
  unfolding drop_older
  drop_older-first_within [] bound t h = refl
  drop_older-first_within (i ∷ is) bound t h = elim (Bool-cases (ltb i.timestamp bound)) [
    | inr e ↦ rw (e, drop_older) refl
    | inl e ↦
        let h' : any_within (drop_older is bound) t ≡ true = rw (e, drop_older) at h in
        let same : first_within (reversed (drop_older is bound)) t ≡ first_within (reversed is) t =
          drop_older-first_within is bound t h' in
        rw (e, drop_older)
          (elim (reversed-IsLast (drop_older is bound) t) [
            | inl (n, _, _) ↦ cc
            | inr (_, j, f, _) ↦ elim (first_within-append (reversed is) i t) [
              | inl (k, g, g') ↦ same ∙ g ∙ sym g'
              | inr (g, _) ↦ let e' : ok j ≡ err assertion = sym f ∙ same ∙ g in cc
            ]
          ])
  ]

  any_within-drop_older :
      (is : List (HumanStateInstance S)) (bound t : ℕ)
      → any_within (drop_older is bound) t ≡ true
      → any_within is t ≡ true
  unfolding drop_older any_within
  any_within-drop_older [] bound t h = h
  any_within-drop_older (i ∷ is) bound t h = elim (Bool-cases (ltb i.timestamp bound)) [
    | inr e ↦ rw (e, drop_older) at h
    | inl e ↦ elim (Bool-cases (leb i.timestamp t)) [
      | inl f ↦ rw f refl
      | inr f ↦ rw f (any_within-drop_older is bound t (rw (e, drop_older) at h))
    ]
  ]

  full : (is : List (HumanStateInstance S)) (t : ℕ) → any_within is t ≡ true → is_nil is ≡ false
  unfolding any_within
  full [] t h = cc
  full (i ∷ is) t h = refl

  drop_older-splits :
      (is : List (HumanStateInstance S)) (bound : ℕ)
      → (n : ℕ) × (drop_older is bound ≡ drop n is)
        × All (λ i. i.timestamp < bound) (take n is)
        × All (λ i. bound ≤ i.timestamp) (take 1 (drop_older is bound))
  unfolding drop_older
  drop_older-splits [] bound = (0, refl, tt, tt)
  drop_older-splits (i ∷ is) bound = elim (Bool-cases (ltb i.timestamp bound)) [
    | inl e ↦
        let (n, f, old, first) = drop_older-splits is bound in
        (suc n, rw (e, drop_older) f, (ltb→lt i.timestamp bound e, old), rw (e, drop_older) first)
    | inr e ↦
        (0, rw (e, drop_older) refl, tt, rw (e, drop_older) (ltb-false→le i.timestamp bound e, tt))
  ]

-- `remove_older_than` takes away instances from the front, all older than the bound, until the first
-- is not older.
pub remove_older_than-drop :
    {S : Type 0} (h : HumanStateHistory S) (bound : ℕ)
    → (n : ℕ) × ((remove_older_than h bound).instances ≡ drop n h.instances)
      × All (λ i. i.timestamp < bound) (take n h.instances)
      × All (λ i. bound ≤ i.timestamp) (take 1 (remove_older_than h bound).instances)
unfolding remove_older_than
remove_older_than-drop h bound = drop_older-splits h.instances bound

-- For every timestamp within which the history still has an instance after `remove_older_than`, the
-- answer of `latest_within` is the one from before.
pub latest_within-remove_older_than :
    {S : Type 0} (h : HumanStateHistory S) (bound timestamp : ℕ)
    → has_instances_within (remove_older_than h bound) timestamp ≡ true
    → latest_within (remove_older_than h bound) timestamp ≡ latest_within h timestamp
unfolding remove_older_than latest_within has_instances_within
latest_within-remove_older_than h bound timestamp some_left =
    rw
      (
        full (drop_older h.instances bound) timestamp some_left,
        full h.instances timestamp (any_within-drop_older h.instances bound timestamp some_left),
      )
      (drop_older-first_within h.instances bound timestamp some_left)
