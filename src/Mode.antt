-- ===== src/Mode.antt =====
-- Mode (include/mode.hpp, src/mode.cpp): the values of some variables, a std::map from names to
-- values, here the list of its entries in the order of the names.
pub mod Agreement
pub mod Comparison
pub mod Order
mod Tests
use opera.Prelude.{
  ℕ, zero, suc, ◌+◌, List, [], ◌∷◌, Bool, true, false, ◌&&◌, not, if◌then◌else◌, Result, ok, err,
  out_of_fuel, assert, ◌>>=◌, ◌>>◌, length, is_nil, Option, none, some,
}
use opera.Prelude.Texts.{Text, text_eq, text_lt}

abbrev pub Mode : Type 0
Mode = List (Text × Text)

unfoldable pub is_empty : Mode → Bool
is_empty q = is_nil q

-- std::map::insert, which keeps the value of a name that is there.
unfoldable pub insert : Text → Text → Mode → Mode
insert name value [] = (name, value) ∷ []
insert name value ((n, v) ∷ q) =
    if text_eq name n
    then (n, v) ∷ q
    else if text_lt name n
    then (name, value) ∷ (n, v) ∷ q
    else (n, v) ∷ insert name value q

-- The constructor from an initialiser list.
unfoldable pub construct : List (Text × Text) → Mode → Mode
construct [] q = q
construct ((name, value) ∷ vals) q = construct vals (insert name value q)

-- The loop of `operator==` and what follows it, with the rounds left.
unfoldable pub eq_loop : ℕ → Mode → Mode → Bool → Result Bool
eq_loop zero q1 q2 identical = err out_of_fuel
eq_loop (suc fuel) [] q2 identical = assert (identical && is_nil q2) >> ok true
eq_loop (suc fuel) (e ∷ q1) [] identical = assert false >> ok true
eq_loop (suc fuel) ((k1, v1) ∷ q1) ((k2, v2) ∷ q2) identical = elim (text_eq k1 k2) [
  | true ↦ elim (text_eq v1 v2) [ true ↦ eq_loop fuel q1 q2 identical | false ↦ ok false ]
  | false ↦ elim (text_lt k1 k2) [
    | true ↦ eq_loop fuel q1 ((k2, v2) ∷ q2) false
    | false ↦ eq_loop fuel ((k1, v1) ∷ q1) q2 false
  ]
]

unfoldable pub mode_eq : Mode → Mode → Result Bool
mode_eq q1 q2 = eq_loop (suc (length q1 + length q2)) q1 q2 true

unfoldable pub mode_ne : Mode → Mode → Result Bool
mode_ne q1 q2 = mode_eq q1 q2 >>= λ same. ok (not same)

unfoldable pub mode_lt : Mode → Mode → Bool
mode_lt [] q2 = not (is_nil q2)
mode_lt (e ∷ q1) [] = false
mode_lt ((k1, v1) ∷ q1) ((k2, v2) ∷ q2) =
    if not (text_eq k1 k2)
    then text_lt k1 k2
    else if not (text_eq v1 v2)
    then text_lt v1 v2
    else mode_lt q1 q2

-- Neither mode is less than the other: what std::map takes for one key.
unfoldable pub equivalent : Mode → Mode → Bool
equivalent m q = not (mode_lt m q) && not (mode_lt q m)
