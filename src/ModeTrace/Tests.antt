-- ===== src/ModeTrace/Tests.antt =====
-- A trace of three modes, with likelihoods as percentages.
use opera.Prelude.{
  ℕ, ◌+◌, ◌-◌, ◌≤◌, ◌<◌, ◌≡◌, ◌≢◌, ◌⊎◌, [], ◌∷◌, Error, ok, err, out_of_fuel, ◌>>=◌, not, ◌==◌,
  refl, length, take, drop,
}
use opera.Prelude.Texts.{text_eq}
use opera.Mode.{Mode, mode_eq, eq_loop}
use opera.ModeTrace.{
  Likelihoods, ModeTrace, push_back, likelihood, empty, size, reduce_between_indices,
}
use opera.ModeTrace.Next.{
  next_modes, compute_next_modes, start_tracking, backtrack_loop, num_valid, step_all, step_back,
  divide_all, count_longest, count_mode,
}
use opera.ModeTrace.Ending.{next_modes-ends}
use opera.ModeTrace.Reduction.{reduce_between_indices-take}

abbrev moving : Mode
moving = (1 ∷ [], 10 ∷ []) ∷ []

abbrev resting : Mode
resting = (1 ∷ [], 20 ∷ []) ∷ []

abbrev trace : ModeTrace ℕ
trace = record {
  entries =
      record { mode = moving; likelihood = 100 }
      ∷ record { mode = resting; likelihood = 50 }
      ∷ record { mode = moving; likelihood = 50 }
      ∷ [];
  next_modes = [];
}

reduce_between_indices-take_example :
    ((1 ≤ 2)
      × (2 < length trace.entries)
      × (reduce_between_indices trace 1 2
          ≡ ok (record trace { entries = take (2 + 1 - 1) (drop 1 trace.entries) })))
    ⊎ (((2 < 1) ⊎ (length trace.entries ≤ 2))
        × (e : Error) × (reduce_between_indices trace 1 2 ≡ err e))
reduce_between_indices-take_example = reduce_between_indices-take trace 1 2

instance abbrev percentages : Likelihoods ℕ
percentages = record {
  one = 100;
  mul = λ x y. x;
  ne = λ x y. not (x == y);
  add = λ x y. x + y;
  div = λ x n. x;
}

-- The robot rested the last time that it had moved.
next_resting :
    next_modes trace ≡ ok ((resting, 100) ∷ [], record trace { next_modes = (resting, 100) ∷ [] })
unfolding next_modes compute_next_modes start_tracking mode_eq eq_loop text_eq push_back likelihood
    empty backtrack_loop num_valid step_all step_back divide_all count_longest size count_mode
next_resting = refl

next_modes-ends_example :
    (next_modes trace ≢ err out_of_fuel)
    × ((next_modes trace >>= λ kept. next_modes kept.1) ≡ next_modes trace)
next_modes-ends_example = next_modes-ends trace
