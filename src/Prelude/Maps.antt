-- ===== src/Prelude/Maps.antt =====
-- std::map from identifiers, as an association list in the order of its keys.
use opera.Prelude.{List, [], ◌∷◌, Bool, false, ◌||◌, if◌then◌else◌, Result, ok, err, out_of_range}
use opera.Prelude.Texts.{Text, text_eq, text_lt}

-- has_key, at, insert, erase, an assignment to the value that `at` refers to, and the keys.
module _ {V : Type 0} where
  unfoldable pub has_key : List (Text × V) → Text → Bool
  has_key [] id = false
  has_key ((k, v) ∷ es) id = text_eq k id || has_key es id

  unfoldable pub value_at : List (Text × V) → Text → Result V
  value_at [] id = err out_of_range
  value_at ((k, v) ∷ es) id = if text_eq k id then ok v else value_at es id

  unfoldable pub insert_key : List (Text × V) → Text → V → List (Text × V)
  insert_key [] id w = (id, w) ∷ []
  insert_key ((k, v) ∷ es) id w =
      if text_eq k id
      then (k, v) ∷ es
      else if text_lt id k
      then (id, w) ∷ (k, v) ∷ es
      else (k, v) ∷ insert_key es id w

  unfoldable pub erase : List (Text × V) → Text → List (Text × V)
  erase [] id = []
  erase ((k, v) ∷ es) id = if text_eq k id then es else (k, v) ∷ erase es id

  unfoldable pub assign : List (Text × V) → Text → V → List (Text × V)
  assign [] id w = []
  assign ((k, v) ∷ es) id w = if text_eq k id then (k, w) ∷ es else (k, v) ∷ assign es id w

  unfoldable pub keys : List (Text × V) → List Text
  keys [] = []
  keys ((k, v) ∷ es) = k ∷ keys es
