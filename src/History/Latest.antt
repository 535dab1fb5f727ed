-- ===== src/History/Latest.antt =====
-- The searches through a history from its end (src/state.cpp).
use opera.Prelude.{
  ℕ, suc, ◌≤◌, ◌<◌, ◌≡◌, refl, sym, ◌∙◌, ◌⊎◌, inl, inr, List, [], ◌∷◌, ◌++◌, true, false, leb,
  Bool-cases, ok, err, Error, precondition, assertion, at-lt, arith, is_nil, at, drop, All,
  if◌then◌else◌, leb-false→lt, leb→le,
}
use opera.History.{
  HumanStateInstance, HumanStateHistory, reversed, first_within, latest_within, any_within,
  has_instances_within,
}

module _ {S : Type 0} where
  -- The last instance is tried first.
  pub first_within-append :
      (is : List (HumanStateInstance S)) (i : HumanStateInstance S) (t : ℕ)
      → ((j : HumanStateInstance S) × (first_within is t ≡ ok j)
          × (first_within (is ++ i ∷ []) t ≡ ok j))
        ⊎ ((first_within is t ≡ err assertion)
            × (first_within (is ++ i ∷ []) t ≡ (if leb i.timestamp t then ok i else err assertion)))
  unfolding first_within
  first_within-append [] i t = inr (refl, refl)
  first_within-append (k ∷ is) i t = elim (Bool-cases (leb k.timestamp t)) [
    | inl e ↦ inl (k, rw e, rw e)
    | inr e ↦ elim (first_within-append is i t) [
      | inl (j, f, g) ↦ inl (j, rw e f, rw e g)
      | inr (f, g) ↦ inr (rw e f, rw e g)
    ]
  ]

  -- Where a history has an instance within the timestamp, the search ends at the last one.
  abbrev pub IsLast : List (HumanStateInstance S) → ℕ → HumanStateInstance S → Type 0
  IsLast is t j =
      (n : ℕ) × (at is n ≡ ok j) × (j.timestamp ≤ t) × All (λ k. t < k.timestamp) (drop (suc n) is)

  pub reversed-IsLast :
      (is : List (HumanStateInstance S)) (t : ℕ)
      → ((any_within is t ≡ false)
          × (first_within (reversed is) t ≡ err assertion)
          × All (λ k. t < k.timestamp) is)
        ⊎ ((any_within is t ≡ true)
            × (j : HumanStateInstance S) × (first_within (reversed is) t ≡ ok j)
            × IsLast is t j)
  unfolding any_within first_within
  reversed-IsLast [] t = inl (refl, refl, tt)
  reversed-IsLast (i ∷ is) t = elim (reversed-IsLast is t) [
    | inl (n, f, later) ↦ elim (first_within-append (reversed is) i t) [
      | inl (j, g, _) ↦ absurd (no_result (reversed is) t j f g)
      | inr (_, g) ↦ elim (Bool-cases (leb i.timestamp t)) [
        | inl e ↦ inr (rw e refl, i, (rw e at g), (0, refl, leb→le i.timestamp t e, later))
        | inr e ↦ inl (rw e n, (rw e at g), (leb-false→lt i.timestamp t e, later))
      ]
    ]
    | inr (n, j, f, (m, a, b, later)) ↦ elim (first_within-append (reversed is) i t) [
      | inl (k, g, g') ↦
          let p : ok k ≡ ok j = sym g ∙ f in
          let q : k ≡ j = cc in
          inr (
            (elim (Bool-cases (leb i.timestamp t)) [ inl e ↦ rw e refl | inr e ↦ rw e n ]),
            j,
            (rw q at g'),
            (suc m, a, b, later),
          )
      | inr (g, _) ↦ absurd (no_result (reversed is) t j g f)
    ]
  ]
    where
      no_result :
          (is : List (HumanStateInstance S)) (t : ℕ) (j : HumanStateInstance S)
          → first_within is t ≡ err assertion
          → first_within is t ≡ ok j
          → ⊥
      no_result is t j f g = let e : err assertion ≡ ok j = sym f ∙ g in cc

-- `latest_within` returns exactly if `has_instances_within` answers true for the timestamp, and then
-- the last of the acquired instances that is not past the timestamp; otherwise it throws.
pub latest_within-IsLast :
    {S : Type 0} (h : HumanStateHistory S) (timestamp : ℕ)
    → ((has_instances_within h timestamp ≡ false)
        × ((e : Error) × (latest_within h timestamp ≡ err e))
        × All (λ k. timestamp < k.timestamp) h.instances)
      ⊎ ((has_instances_within h timestamp ≡ true)
          × (j : HumanStateInstance S) × (latest_within h timestamp ≡ ok j)
          × IsLast h.instances timestamp j)
unfolding latest_within has_instances_within
latest_within-IsLast h timestamp = elim (reversed-IsLast h.instances timestamp) [
  | inl (n, f, later) ↦ inl (
    n,
    elim (Bool-cases (is_nil h.instances)) [
      | inl e ↦ (precondition, rw e refl)
      | inr e ↦ (assertion, rw e f)
    ],
    later,
  )
  | inr (n, j, f, (m, a, b, later)) ↦
      let full : is_nil h.instances ≡ false = ground (arith, at-lt h.instances m a) in
      inr (n, j, rw full f, (m, a, b, later))
]
