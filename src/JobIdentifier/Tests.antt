-- ===== src/JobIdentifier/Tests.antt =====
-- The order of the identifiers at an input.
use opera.Prelude.{not, ◌&&◌, ◌≡◌, ◌↔◌, ◌⊎◌, [], ◌∷◌, true, false}
use opera.JobIdentifier.{LookAheadJobIdentifier, id_eq, id_lt}
use opera.JobIdentifier.Order.{id_lt-IsStrictOrder, id_lt-id_eq}

abbrev first_pair : LookAheadJobIdentifier
first_pair = record {
  human = b'h' ∷ b'0' ∷ [];
  human_segment = 1;
  robot = b'r' ∷ [];
  robot_segment = 4;
}

abbrev second_pair : LookAheadJobIdentifier
second_pair = record first_pair { human = b'h' ∷ b'0' ∷ b'1' ∷ []; human_segment = 0 }

id_lt-IsStrictOrder_example :
    (id_lt first_pair first_pair ≡ false)
    × ((id_lt first_pair second_pair ≡ false)
        ⊎ (id_lt second_pair first_pair ≡ false)
        ⊎ (id_lt first_pair first_pair ≡ true))
    × ((id_lt first_pair second_pair ≡ true)
        ⊎ (id_lt second_pair first_pair ≡ true)
        ⊎ (first_pair ≡ second_pair))
id_lt-IsStrictOrder_example = id_lt-IsStrictOrder first_pair second_pair first_pair

id_lt-id_eq_example :
    ((not (id_lt first_pair second_pair) && not (id_lt second_pair first_pair))
      ≡ id_eq first_pair second_pair)
    × ((id_eq first_pair second_pair ≡ true) ↔ (first_pair ≡ second_pair))
id_lt-id_eq_example = id_lt-id_eq first_pair second_pair
