-- ===== src/History/Current.antt =====
-- The samples of a mode at a timestamp (src/state.cpp).
use opera.Prelude.{
  ℕ, zero, suc, ◌-◌, ◌≤◌, ◌<◌, ◌≡◌, refl, inl, inr, List, [], ◌∷◌, false, ltb, Bool-cases, Result,
  ok, err, Error, precondition, assertion, arith, length, is_nil, at, at-ok, take, drop, All, ◌⊎◌,
  ltb→lt, ltb-false→le, lt→ltb,
}
use opera.History.{SamplesHistory, count_until, samples_at}

module _ {S : Type 0} where
  count_until-splits :
      (es : List (ℕ × List (List S))) (t : ℕ)
      → (count_until es t ≤ length es)
        × All (λ (e : ℕ × List (List S)). e.0 ≤ t) (take (count_until es t) es)
        × All (λ (e : ℕ × List (List S)). t < e.0) (take 1 (drop (count_until es t) es))
  unfolding count_until
  count_until-splits [] t = (omega arith, tt, tt)
  count_until-splits ((u, s) ∷ es) t = elim (Bool-cases (ltb t u)) [
    | inl e ↦ rw (e, count_until) (omega arith, tt, (ltb→lt t u e, tt))
    | inr e ↦
        let (n, before, after) = count_until-splits es t in
        rw (e, count_until) (omega arith, (ltb-false→le t u e, before), after)
  ]

module _ {S : Type 0} (h : SamplesHistory S) (timestamp : ℕ) where
  -- What `at` returns, or that the first entry is past the timestamp.
  abbrev pub Current : Result (List (List S)) → Type 0
  Current r =
      ((n : ℕ) × (t : ℕ) × (s : List (List S)) × (at h.entries n ≡ ok (t, s))
        × (r ≡ ok s)
        × All (λ (e : ℕ × List (List S)). e.0 ≤ timestamp) (take (suc n) h.entries)
        × All (λ (e : ℕ × List (List S)). timestamp < e.0) (take 1 (drop (suc n) h.entries)))
      ⊎ ((e : Error) × (r ≡ err e)
          × All (λ (e : ℕ × List (List S)). timestamp < e.0) (take 1 h.entries))

  samples_at-counted :
      (c : ℕ) (x : ℕ × List (List S))
      → count_until h.entries timestamp ≡ suc c
      → is_nil h.entries ≡ false
      → at h.entries c ≡ ok x
      → samples_at h timestamp ≡ ok x.1
  unfolding samples_at
  samples_at-counted c x e full f =
      let p : suc c - 1 ≡ c = omega arith in rw (full, e, lt→ltb 0 (suc c) (omega arith), p, f) refl

  counted-Current :
      (c : ℕ)
      → count_until h.entries timestamp ≡ c
      → c ≤ length h.entries
      → All (λ (e : ℕ × List (List S)). e.0 ≤ timestamp) (take c h.entries)
      → All (λ (e : ℕ × List (List S)). timestamp < e.0) (take 1 (drop c h.entries))
      → Current (samples_at h timestamp)
  unfolding samples_at
  counted-Current zero e n before after = elim (Bool-cases (is_nil h.entries)) [
    | inl f ↦ inr (precondition, rw f refl, after)
    | inr f ↦ inr (assertion, rw (f, e) refl, after)
  ]
  counted-Current (suc c) e n before after =
      let full : is_nil h.entries ≡ false = ground arith in
      let (x, f) = at-ok h.entries c (omega arith) in
      inl (c, x.0, x.1, f, samples_at-counted c x e full f, before, after)

-- `at` of a samples history returns the samples of an entry that is not past the timestamp, as none
-- before it is, and that is the last one or has one past the timestamp after it; or it throws, and
-- the history is empty or its first entry is past the timestamp.
pub samples_at-Current :
    {S : Type 0} (h : SamplesHistory S) (timestamp : ℕ)
    → Current h timestamp (samples_at h timestamp)
samples_at-Current h timestamp =
    let (n, before, after) = count_until-splits h.entries timestamp in
    counted-Current h timestamp (count_until h.entries timestamp) refl n before after
