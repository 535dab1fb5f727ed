-- ===== src/Mode/Comparison.antt =====
-- The comparisons of modes (src/mode.cpp) against the maps that they compare.
use opera.Prelude.{
  ℕ, zero, suc, ◌+◌, ◌<◌, ◌≡◌, ◌≢◌, refl, sym, ap, ◌∙◌, ◌⊎◌, inl, inr, [], ◌∷◌, Bool, true, false,
  Bool-cases, Result, ok, err, assertion, arith, length,
}
use opera.Prelude.Texts.{Text, text_eq, text_lt, text_eq_sound, text_eq_refl, text_lt_connex}
use opera.Mode.{Mode, eq_loop, mode_eq}
use opera.Mode.Agreement.{
  Above, IsMap, Conflict, Agree, Above-weaken, lookup-below, lookup-head, Agree-first, Agree-sym,
  Conflict-sym, Agree-same, Conflict-first, Agree-nil,
}

-- What the loop decides, for maps.
abbrev Decided : Mode → Mode → Bool → Result Bool → Type 0
Decided q1 q2 identical r =
    ((identical ≡ true) × (q1 ≡ q2) × (r ≡ ok true))
    ⊎ (Conflict q1 q2 × (r ≡ ok false))
    ⊎ (Agree q1 q2 × (r ≡ err assertion))

-- One round: equal entries, or an entry that one map has alone.
Decided-same :
    (n v : Text) (q1 q2 : Mode) (identical : Bool) (r : Result Bool)
    → Above n q1
    → Above n q2
    → Decided q1 q2 identical r
    → Decided ((n, v) ∷ q1) ((n, v) ∷ q2) identical r
Decided-same n v q1 q2 identical r above1 above2 (inl (i, e, f)) = inl (i, ap (◌∷◌ (n, v)) e, f)
Decided-same n v q1 q2 identical r above1 above2 (inr (inl ((name, a, b, h, k, ne), f))) = inr (
    inl (
      (name, a, b, lookup-below name n v a q1 above1 h, lookup-below name n v b q2 above2 k, ne),
      f,
    ))
Decided-same n v q1 q2 identical r above1 above2 (inr (inr (agree, f))) =
    inr (inr (Agree-same n v q1 q2 above1 above2 agree, f))

Decided-first :
    (n v : Text) (q1 q2 : Mode) (identical : Bool) (r : Result Bool)
    → Above n q1
    → Above n q2
    → Decided q1 q2 false r
    → Decided ((n, v) ∷ q1) q2 identical r
Decided-first n v q1 q2 identical r above1 above2 (inl (i, e, f)) = cc
Decided-first n v q1 q2 identical r above1 above2 (inr (inl (c, f))) =
    inr (inl (Conflict-first n v q1 q2 above1 c, f))
Decided-first n v q1 q2 identical r above1 above2 (inr (inr (agree, f))) =
    inr (inr (Agree-first n v q1 q2 above2 agree, f))

Decided-sym :
    (q1 q2 : Mode) (identical : Bool) (r : Result Bool)
    → Decided q1 q2 identical r
    → Decided q2 q1 identical r
Decided-sym q1 q2 identical r (inl (i, e, f)) = inl (i, sym e, f)
Decided-sym q1 q2 identical r (inr (inl (c, f))) = inr (inl (Conflict-sym q1 q2 c, f))
Decided-sym q1 q2 identical r (inr (inr (a, f))) = inr (inr (Agree-sym q1 q2 a, f))

differ_ne : (v w : Text) → text_eq v w ≡ false → v ≡ w → ⊥
differ_ne v w h e = let t : text_eq v w ≡ true = rw (← e) (text_eq_refl v) in cc

greater : (a b : Text) → text_eq a b ≡ false → text_lt a b ≡ false → text_lt b a ≡ true
greater a b h l = elim (Bool-cases (text_lt b a)) [
  | inl m ↦ m
  | inr m ↦ absurd (differ_ne a b h (text_lt_connex a b l m))
]

eq_loop-Decided :
    (fuel : ℕ) (q1 q2 : Mode) (identical : Bool)
    → length q1 + length q2 < fuel
    → IsMap q1
    → IsMap q2
    → Decided q1 q2 identical (eq_loop fuel q1 q2 identical)
unfolding eq_loop
eq_loop-Decided zero q1 q2 identical f h k = absurd (omega arith)
eq_loop-Decided (suc fuel) [] [] true f h k = inl (refl, refl, refl)
eq_loop-Decided (suc fuel) [] [] false f h k = inr (inr (Agree-nil [], refl))
eq_loop-Decided (suc fuel) [] (e ∷ q2) true f h k = inr (inr (Agree-nil (e ∷ q2), refl))
eq_loop-Decided (suc fuel) [] (e ∷ q2) false f h k = inr (inr (Agree-nil (e ∷ q2), refl))
eq_loop-Decided (suc fuel) (e ∷ q1) [] identical f h k =
    inr (inr (Agree-sym [] (e ∷ q1) (Agree-nil (e ∷ q1)), refl))
eq_loop-Decided (suc fuel) ((k1, v1) ∷ q1) ((k2, v2) ∷ q2) identical f (a1, h) (a2, k) =
    elim (Bool-cases (text_eq k1 k2)) [
      | inl e ↦
          let p : k1 ≡ k2 = text_eq_sound k1 k2 e in
          elim (Bool-cases (text_eq v1 v2)) [
            | inl g ↦
                rw (e, g, eq_loop, ← p, ← text_eq_sound v1 v2 g)
                  (Decided-same k1 v1 q1 q2 identical (eq_loop fuel q1 q2 identical) a1 (rw p a2)
                    (eq_loop-Decided fuel q1 q2 identical (omega arith) h k))
            | inr g ↦
                rw (e, g, eq_loop)
                  (inr (
                    inl (
                      (
                        k1,
                        v1,
                        v2,
                        lookup-head k1 v1 q1,
                        rw p (lookup-head k2 v2 q2),
                        λ same. differ_ne v1 v2 g same,
                      ),
                      refl,
                    )))
          ]
      | inr e ↦ elim (Bool-cases (text_lt k1 k2)) [
        | inl l ↦
            rw (e, l, eq_loop)
              (Decided-first k1 v1 q1 ((k2, v2) ∷ q2) identical
                (eq_loop fuel q1 ((k2, v2) ∷ q2) false) a1 (l, Above-weaken k1 k2 q2 l a2)
                (eq_loop-Decided fuel q1 ((k2, v2) ∷ q2) false (omega arith) h (a2, k)))
        | inr l ↦
            let m : text_lt k2 k1 ≡ true = greater k1 k2 e l in
            let r : Result Bool = eq_loop fuel ((k1, v1) ∷ q1) q2 false in
            rw (e, l, eq_loop)
              (Decided-sym ((k2, v2) ∷ q2) ((k1, v1) ∷ q1) identical r (
                Decided-first k2 v2 q2 ((k1, v1) ∷ q1) identical r a2
                  (m, Above-weaken k2 k1 q1 m a1)
                  (Decided-sym ((k1, v1) ∷ q1) q2 false r
                    (eq_loop-Decided fuel ((k1, v1) ∷ q1) q2 false (omega arith) (a1, h) k))))
      ]
    ]

eq_loop_refl : (fuel : ℕ) (q : Mode) → length q + length q < fuel → eq_loop fuel q q true ≡ ok true
unfolding eq_loop
eq_loop_refl zero q f = absurd (omega arith)
eq_loop_refl (suc fuel) [] f = refl
eq_loop_refl (suc fuel) ((k, v) ∷ q) f =
    rw (text_eq_refl k, text_eq_refl v, eq_loop) (eq_loop_refl fuel q (omega arith))

-- On two modes, `operator==` ends in one of three ways: it returns true, and the modes are the same
-- map; it returns false, and some variable has different values in the two; or it throws, and the
-- modes are different maps in which no variable has different values.
pub mode_eq-decides :
    (q1 q2 : Mode)
    → IsMap q1
    → IsMap q2
    → ((q1 ≡ q2) × (mode_eq q1 q2 ≡ ok true))
      ⊎ (Conflict q1 q2 × (mode_eq q1 q2 ≡ ok false))
      ⊎ ((q1 ≢ q2) × Agree q1 q2 × (mode_eq q1 q2 ≡ err assertion))
unfolding mode_eq
mode_eq-decides q1 q2 h k =
    elim (eq_loop-Decided (suc (length q1 + length q2)) q1 q2 true (omega arith) h k) [
      | inl (_, e, f) ↦ inl (e, f)
      | inr (inl x) ↦ inr (inl x)
      | inr (inr (agree, f)) ↦ inr (
          inr (
            (λ e.
                let same : eq_loop (suc (length q1 + length q2)) q1 q2 true ≡ ok true =
                  rw (← e) (eq_loop_refl (suc (length q1 + length q1)) q1 (omega arith)) in
                let absurdity : ok true ≡ err assertion = sym same ∙ f in cc),
            agree,
            f,
          ))
    ]
