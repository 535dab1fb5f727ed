-- ===== src/Sequence/Resuming.antt =====
-- `reset` of a sequence (src/barrier.cpp): what is kept of the sections for another human sample.
use opera.Prelude.{
  ℕ, ◌+◌, ◌≤◌, ◌<◌, ◌≡◌, refl, inl, inr, List, [], ◌∷◌, true, if◌then◌else◌, Bool-cases, ltb, ok,
  arith, length, is_nil, All,
}
use opera.Prelude.Doubles.{Doubles, IsOrdered}
use opera.Section
use opera.Section.{Section, SectionKind}
use opera.Section.Ranges.{past_of}
use opera.Section.Trimming.{IsInOrder}
use opera.Section.Resetting.{reset-IsInOrder}
use opera.Sequence.{Sequence, reset_sections, reset}

-- A section in order.
abbrev pub HasOrder : {S F : Type 0} ⦃d : Doubles F⦄ → Section S F → Type 0
HasOrder s = IsInOrder s.barriers

module _ {S F : Type 0} ⦃d : Doubles F⦄ ⦃k : SectionKind S F⦄ where
  -- A section that holds barriers in order, each of which serves the human sample: its distance is
  -- above the one of the human samples, and it ends within the interval, counted from `lower`.
  pub record Serves (human_sample : S) (lower upper : ℕ) (s : Section S F) : Type 0 where
    pub some_barrier : 0 < length s.barriers
    pub in_order : HasOrder s
    pub within :
        All
          (λ b.
            (d.lt (k.maximum_human_human_distance s.human_sample human_sample) b.minimum_distance
              ≡ true)
            × (past_of b + lower ≤ upper + 1))
          s.barriers

module _ {S F : Type 0} ⦃d : Doubles F⦄ ⦃k : SectionKind S F⦄ (o : IsOrdered d) (human_sample : S)
    (lower upper sample_index : ℕ) where
  -- What becomes of one section, before those that follow it.
  joined :
      (s s' : Section S F) (rest : List (Section S F))
      → s'.human_sample ≡ s.human_sample
      → HasOrder s'
      → All
          (λ b.
            (d.lt (k.maximum_human_human_distance s.human_sample human_sample) b.minimum_distance
              ≡ true)
            × (past_of b + lower ≤ upper + 1))
          s'.barriers
      → All (Serves human_sample lower upper) rest
      → All (Serves human_sample lower upper) (if is_nil s'.barriers then rest else s' ∷ rest)
        × (length (if is_nil s'.barriers then rest else s' ∷ rest) ≤ length rest + 1)
  joined s s' rest same order within serves = elim (Bool-cases (is_nil s'.barriers)) [
    | inl none ↦ rw none (serves, omega arith)
    | inr some_barrier ↦ rw some_barrier (
      (record { some_barrier = ground arith; in_order = order; within = rw same within }, serves),
      omega arith,
    )
  ]

  reset_sections-Serves :
      (ss : List (Section S F))
      → All HasOrder ss
      → (ss' : List (Section S F)) × (reset_sections ss human_sample lower upper sample_index
          ≡ ok ss')
        × All (Serves human_sample lower upper) ss'
        × (length ss' ≤ length ss)
  unfolding reset_sections Section.is_empty Section.size
  reset_sections-Serves [] h = ([], refl, tt, omega arith)
  reset_sections-Serves (s ∷ ss) h =
      let (rest, f, serves, shorter) = reset_sections-Serves ss h.1 in
      let (s', e, same, order, within) =
        reset-IsInOrder o s human_sample lower upper sample_index h.0 in
      elim (Bool-cases (ltb (length s'.barriers) (length s.barriers))) [
        | inl shrank ↦
            let (all, n) = joined s s' [] same order within tt in
            (_, rw (e, shrank), all, omega arith)
        | inr whole ↦
            let (all, n) = joined s s' rest same order within serves in
            (_, rw (e, whole, f), all, omega arith)
      ]

-- `reset` of a sequence whose sections are in order returns, with no more sections than before, each
-- of which holds at least one barrier, is in order, and has only barriers whose distance is above the
-- one from the new human sample to the section's and which end within the interval, counted from its
-- lower bound. The update policy stays.
pub reset-Serves :
    {S F : Type 0} ⦃d : Doubles F⦄ ⦃k : SectionKind S F⦄ (o : IsOrdered d) (q : Sequence S F)
    (human_sample : S) (lower upper sample_index : ℕ)
    → All HasOrder q.sections
    → (q' : Sequence S F) × (reset q human_sample lower upper sample_index ≡ ok q')
      × All (Serves human_sample lower upper) q'.sections
      × (length q'.sections ≤ length q.sections)
      × (q'.update_policy ≡ q.update_policy)
unfolding reset
reset-Serves o q human_sample lower upper sample_index h =
    let (ss, e, serves, shorter) =
      reset_sections-Serves o human_sample lower upper sample_index q.sections h in
    (record q { sections = ss }, rw e, serves, shorter, refl)
