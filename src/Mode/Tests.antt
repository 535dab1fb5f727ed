-- ===== src/Mode/Tests.antt =====
-- The comparisons of two modes with other values.
use opera.Prelude.{◌≡◌, ◌≢◌, refl, ◌⊎◌, [], ◌∷◌, true, false, ok, err, assertion}
use opera.Prelude.Texts.{text_lt}
use opera.Mode.{Mode, mode_eq, mode_lt}
use opera.Mode.Agreement.{Conflict, Agree}
use opera.Mode.Comparison.{mode_eq-decides}
use opera.Mode.Order.{mode_lt-IsStrictOrder}

-- Variables and values as single bytes.
abbrev moving : Mode
moving = (1 ∷ [], 10 ∷ []) ∷ (2 ∷ [], 20 ∷ []) ∷ []

abbrev resting : Mode
resting = (1 ∷ [], 10 ∷ []) ∷ (2 ∷ [], 21 ∷ []) ∷ []

mode_eq-decides_example :
    ((moving ≡ resting) × (mode_eq moving resting ≡ ok true))
    ⊎ (Conflict moving resting × (mode_eq moving resting ≡ ok false))
    ⊎ ((moving ≢ resting) × Agree moving resting × (mode_eq moving resting ≡ err assertion))
unfolding text_lt
mode_eq-decides_example =
    mode_eq-decides moving resting ((refl, tt), (tt, tt)) ((refl, tt), (tt, tt))

mode_lt-IsStrictOrder_example :
    (mode_lt moving moving ≡ false)
    × ((mode_lt moving resting ≡ false) ⊎ (mode_lt resting [] ≡ false) ⊎ (mode_lt moving [] ≡ true))
    × ((mode_lt moving resting ≡ true) ⊎ (mode_lt resting moving ≡ true) ⊎ (moving ≡ resting))
mode_lt-IsStrictOrder_example = mode_lt-IsStrictOrder moving resting []
