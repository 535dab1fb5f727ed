-- ===== src/JobPath/Tests.antt =====
-- Runs of the path operations, and the theorems at an input.
use opera.Prelude.{◌≡◌, refl, [], ◌∷◌, ok, err, assertion, arith}
use opera.JobPath.{
  LookAheadJobPath, add, reduce_between, remove_g_than, remove_le_than, remove_g_loop,
  remove_le_loop, extends, empty,
}
use opera.JobPath.Reduce.{IsValid, add-IsValid, reduce_between-shifted}

abbrev branches : LookAheadJobPath
branches = record { path = (0, 1) ∷ (2, 3) ∷ (0, 4) ∷ (1, 7) ∷ [] }

branches-IsValid : IsValid branches
branches-IsValid = omega arith

reduce_between_run : reduce_between branches 2 4 ≡ ok (record { path = (2, 1) ∷ (0, 2) ∷ [] })
unfolding reduce_between remove_g_than remove_le_than remove_g_loop remove_le_loop add extends empty
reduce_between_run = refl

add-IsValid_example : add branches 5 7 ≡ err assertion
add-IsValid_example = (add-IsValid branches 5 7 branches-IsValid).2 (omega arith) (omega arith)

reduce_between-shifted_example :
    (reduce_between branches 2 4 ≡ ok (record { path = (2, 1) ∷ (0, 2) ∷ [] }))
    × IsValid (record { path = (2, 1) ∷ (0, 2) ∷ [] })
reduce_between-shifted_example = reduce_between-shifted branches 2 4 branches-IsValid
