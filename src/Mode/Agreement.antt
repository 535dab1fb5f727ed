-- ===== src/Mode/Agreement.antt =====
-- Modes as maps: what two of them say of a variable.
use opera.Prelude.{
  ◌≡◌, ◌≢◌, refl, sym, ◌∙◌, ◌⊎◌, inl, inr, [], ◌∷◌, true, false, Bool-cases, arith, Option, none,
  some, All,
}
use opera.Prelude.Texts.{
  Text, text_eq, text_lt, text_eq_sound, text_eq_refl, text_lt_irrefl, text_lt_trans,
}
use opera.Mode.{Mode}

-- std::map::find
pub lookup : Text → Mode → Option Text
lookup name [] = none
lookup name ((n, v) ∷ q) = elim (text_eq n name) [ true ↦ some v | false ↦ lookup name q ]

abbrev pub Above : Text → Mode → Type 0
Above name q = All (λ (e : Text × Text). text_lt name e.0 ≡ true) q

-- The names ascend, as in every std::map.
abbrev pub IsMap : Mode → Type 0
IsMap [] = Unit
IsMap ((n, v) ∷ q) = Above n q × IsMap q

-- A name with two values.
abbrev pub Conflict : Mode → Mode → Type 0
Conflict q1 q2 = (name v w : Text) × (lookup name q1 ≡ some v) × (lookup name q2 ≡ some w) × (v ≢ w)

-- Each common name has one value.
abbrev pub Agree : Mode → Mode → Type 0
Agree q1 q2 = (name v w : Text) → lookup name q1 ≡ some v → lookup name q2 ≡ some w → v ≡ w

Above-lookup : (name : Text) (q : Mode) → Above name q → lookup name q ≡ none
unfolding lookup
Above-lookup name [] h = refl
Above-lookup name ((n, v) ∷ q) h =
    ground (arith, text_eq_sound n name, text_lt_irrefl name, Above-lookup name q h.1)

pub Above-weaken : (a b : Text) (q : Mode) → text_lt a b ≡ true → Above b q → Above a q
Above-weaken a b [] l h = tt
Above-weaken a b ((n, v) ∷ q) l h = (text_lt_trans a b n l h.0, Above-weaken a b q l h.1)

-- An entry before the others hides none of them.
pub lookup-below :
    (name n v w : Text) (q : Mode)
    → Above n q
    → lookup name q ≡ some w
    → lookup name ((n, v) ∷ q) ≡ some w
unfolding lookup
lookup-below name n v w q above h = elim (Bool-cases (text_eq n name)) [
  | inl e ↦
      let p : n ≡ name = text_eq_sound n name e in
      let none_there : lookup n q ≡ none = Above-lookup n q above in
      let h' : lookup n q ≡ some w = rw (← p) at h in cc
  | inr e ↦ rw (e, lookup) h
]

lookup-cases :
    (name n v w : Text) (q : Mode)
    → lookup name ((n, v) ∷ q) ≡ some w
    → ((n ≡ name) × (v ≡ w)) ⊎ (lookup name q ≡ some w)
unfolding lookup
lookup-cases name n v w q h = elim (Bool-cases (text_eq n name)) [
  | inl e ↦ inl (text_eq_sound n name e, (let p : some v ≡ some w = rw (e, lookup) at h in cc))
  | inr e ↦ inr (rw (e, lookup) at h)
]

pub lookup-head : (n v : Text) (q : Mode) → lookup n ((n, v) ∷ q) ≡ some v
unfolding lookup
lookup-head n v q = rw (text_eq_refl n, lookup) refl

not-Above : (name w : Text) (q : Mode) → Above name q → lookup name q ≡ some w → ⊥
not-Above name w q above h = let e : none ≡ some w = sym (Above-lookup name q above) ∙ h in cc

pub Agree-first : (n v : Text) (q1 q2 : Mode) → Above n q2 → Agree q1 q2 → Agree ((n, v) ∷ q1) q2
Agree-first n v q1 q2 above agree name v' w h k = elim (lookup-cases name n v v' q1 h) [
  | inl (e, _) ↦ absurd (not-Above n w q2 above (rw (← e) at k))
  | inr h' ↦ agree name v' w h' k
]

pub Agree-sym : (q1 q2 : Mode) → Agree q1 q2 → Agree q2 q1
Agree-sym q1 q2 agree name v w h k = sym (agree name w v k h)

pub Conflict-sym : (q1 q2 : Mode) → Conflict q1 q2 → Conflict q2 q1
Conflict-sym q1 q2 (name, v, w, h, k, ne) = (name, w, v, k, h, λ e. ne (sym e))

pub Agree-same :
    (n v : Text) (q1 q2 : Mode)
    → Above n q1
    → Above n q2
    → Agree q1 q2
    → Agree ((n, v) ∷ q1) ((n, v) ∷ q2)
Agree-same n v q1 q2 above1 above2 agree name a b h k = elim (lookup-cases name n v a q1 h) [
  | inl (e, f) ↦ elim (lookup-cases name n v b q2 k) [
    | inl (_, g) ↦ sym f ∙ g
    | inr k' ↦ absurd (not-Above n b q2 above2 (rw (← e) at k'))
  ]
  | inr h' ↦ elim (lookup-cases name n v b q2 k) [
    | inl (e, _) ↦ absurd (not-Above n a q1 above1 (rw (← e) at h'))
    | inr k' ↦ agree name a b h' k'
  ]
]

pub Conflict-first :
    (n v : Text) (q1 q2 : Mode) → Above n q1 → Conflict q1 q2 → Conflict ((n, v) ∷ q1) q2
Conflict-first n v q1 q2 above (name, a, b, h, k, ne) =
    (name, a, b, lookup-below name n v a q1 above h, k, ne)

pub Agree-nil : (q : Mode) → Agree [] q
unfolding lookup
Agree-nil q name v w h k = let e : none ≡ some v = h in absurd (cc)
