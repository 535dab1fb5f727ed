-- ===== src/JobIdentifier/Order.antt =====
-- The comparisons of identifiers are an equality and a strict order, as the ordered map of the
-- job registry needs them.
use opera.Prelude.{
  ℕ, not, ◌&&◌, Bool-cases, ◌≡◌, ap, Bool, true, false, ◌⊎◌, inl, inr, ◌↔◌, arith, if◌then◌else◌,
  ltb,
}
use opera.Prelude.Texts.{
  Text, text_lt, text_eq_sound, text_eq_refl, text_lt_irrefl, text_lt_trans, text_lt_connex,
  text_lt_asymm,
}
use opera.JobIdentifier.{LookAheadJobIdentifier, id_eq, id_lt}

id_eq_sound : (a b : LookAheadJobIdentifier) → id_eq a b ≡ true → a ≡ b
unfolding id_eq
id_eq_sound a b h = ground (arith, text_eq_sound a.human b.human, text_eq_sound a.robot b.robot)

id_eq_complete : (a : LookAheadJobIdentifier) → id_eq a a ≡ true
unfolding id_eq
id_eq_complete a = ground (arith, text_eq_refl a.human, text_eq_refl a.robot)

id_lt_connex : (a b : LookAheadJobIdentifier) → id_lt a b ≡ false → id_lt b a ≡ false → a ≡ b
unfolding id_lt
id_lt_connex a b h k =
    ground (arith, text_lt_connex a.human b.human, text_lt_connex a.robot b.robot)

-- `operator<` is irreflexive.
id_lt_irrefl : (a : LookAheadJobIdentifier) → id_lt a a ≡ false
unfolding id_lt
id_lt_irrefl a = ground (arith, text_lt_irrefl a.human, text_lt_irrefl a.robot)

-- A comparison by a first test, and by a second one where the first finds no order.
abbrev then_by : Bool → Bool → Bool → Bool
then_by less greater rest = if less then true else if greater then false else rest

id_lt-rest : LookAheadJobIdentifier → LookAheadJobIdentifier → Bool
id_lt-rest a b =
    then_by (text_lt a.robot b.robot) (text_lt b.robot a.robot)
      (ltb a.robot_segment b.robot_segment)

id_lt-split :
    (a b : LookAheadJobIdentifier)
    → id_lt a b
      ≡ then_by (text_lt a.human b.human) (text_lt b.human a.human) (
          then_by
            (ltb a.human_segment b.human_segment)
            (ltb b.human_segment a.human_segment)
            (id_lt-rest a b))
unfolding id_lt id_lt-rest
id_lt-split a b = ground arith

then_by-text :
    (a b c : Text) (r s t : Bool)
    → (a ≡ c → r ≡ true → s ≡ true → t ≡ true)
    → then_by (text_lt a b) (text_lt b a) r ≡ true
    → then_by (text_lt b c) (text_lt c b) s ≡ true
    → then_by (text_lt a c) (text_lt c a) t ≡ true
then_by-text a b c r s t f h k = ground (
  arith,
  text_lt_trans a b c,
  text_lt_connex a b,
  text_lt_connex b c,
  text_lt_asymm a c,
  text_lt_connex a c,
  text_lt_irrefl b,
)

then_by-number :
    (a b c : ℕ) (r s t : Bool)
    → (r ≡ true → s ≡ true → t ≡ true)
    → then_by (ltb a b) (ltb b a) r ≡ true
    → then_by (ltb b c) (ltb c b) s ≡ true
    → then_by (ltb a c) (ltb c a) t ≡ true
then_by-number a b c r s t f h k = ground arith

id_lt-rest_trans :
    (a b c : LookAheadJobIdentifier)
    → id_lt-rest a b ≡ true
    → id_lt-rest b c ≡ true
    → id_lt-rest a c ≡ true
unfolding id_lt-rest
id_lt-rest_trans a b c h k =
    then_by-text a.robot b.robot c.robot (ltb a.robot_segment b.robot_segment)
      (ltb b.robot_segment c.robot_segment) (ltb a.robot_segment c.robot_segment)
      (λ e x y. ground arith) h k

id_lt_trans :
    (a b c : LookAheadJobIdentifier) → id_lt a b ≡ true → id_lt b c ≡ true → id_lt a c ≡ true
id_lt_trans a b c h k = rw (id_lt-split a c) (
    then_by-text a.human b.human c.human _ _ _
      (λ e x y.
        then_by-number a.human_segment b.human_segment c.human_segment (id_lt-rest a b)
          (id_lt-rest b c) (id_lt-rest a c) (id_lt-rest_trans a b c) x y)
      (rw (id_lt-split a b) at h) (rw (id_lt-split b c) at k))

-- `operator<` is a strict total order: no identifier is below itself, one below a second that is
-- below a third is below the third, and of two that are not the same one is below the other.
pub id_lt-IsStrictOrder :
    (a b c : LookAheadJobIdentifier)
    → (id_lt a a ≡ false)
      × ((id_lt a b ≡ false) ⊎ (id_lt b c ≡ false) ⊎ (id_lt a c ≡ true))
      × ((id_lt a b ≡ true) ⊎ (id_lt b a ≡ true) ⊎ (a ≡ b))
id_lt-IsStrictOrder a b c = (
  id_lt_irrefl a,
  elim (Bool-cases (id_lt a b)) [
    | inr e ↦ inl e
    | inl e ↦ elim (Bool-cases (id_lt b c)) [
      | inr f ↦ inr (inl f)
      | inl f ↦ inr (inr (id_lt_trans a b c e f))
    ]
  ],
  elim (Bool-cases (id_lt a b)) [
    | inl e ↦ inl e
    | inr e ↦ elim (Bool-cases (id_lt b a)) [
      | inl f ↦ inr (inl f)
      | inr f ↦ inr (inr (id_lt_connex a b e f))
    ]
  ],
)

-- The equivalence that an ordered map derives from `operator<` is `operator==`, and both are the
-- equality of all four fields.
pub id_lt-id_eq :
    (a b : LookAheadJobIdentifier)
    → ((not (id_lt a b) && not (id_lt b a)) ≡ id_eq a b) × ((id_eq a b ≡ true) ↔ (a ≡ b))
id_lt-id_eq a b = (
  elim (Bool-cases (id_eq a b)) [
    | inl e ↦ rw (id_eq_sound a b e, id_lt_irrefl b, id_eq_complete b)
    | inr e ↦ ground (arith, id_lt_connex a b, ap (id_eq a), id_eq_complete a)
  ],
  (id_eq_sound a b, λ e. rw (← e) (id_eq_complete a)),
)
