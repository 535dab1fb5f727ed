-- ===== src/Mode/Order.antt =====
-- `operator<` on modes (src/mode.cpp), by which they are the keys of maps and sets.
use opera.Prelude.{◌≡◌, refl, sym, ◌∙◌, ◌⊎◌, [], ◌∷◌, true, false, Bool-cases, inl, inr}
use opera.Prelude.Texts.{
  Text, text_eq, text_lt, text_eq_sound, text_eq_refl, text_lt_irrefl, text_lt_trans,
  text_lt_connex,
}
use opera.Mode.{Mode, mode_lt}

lt_irrefl : (q : Mode) → mode_lt q q ≡ false
unfolding mode_lt
lt_irrefl [] = refl
lt_irrefl ((k, v) ∷ q) = rw (text_eq_refl k, text_eq_refl v, mode_lt) (lt_irrefl q)

-- Which part of the first entries decides.
abbrev Lower : Text → Text → Mode → Text → Text → Mode → Type 0
Lower n v a m w b =
    (text_lt n m ≡ true)
    ⊎ ((n ≡ m) × (text_lt v w ≡ true))
    ⊎ ((n ≡ m) × (v ≡ w) × (mode_lt a b ≡ true))

differ : (n m : Text) → text_lt n m ≡ true → text_eq n m ≡ false
differ n m h = elim (Bool-cases (text_eq n m)) [
  | inl e ↦
      let p : text_lt m m ≡ true = rw (text_eq_sound n m e) at h in
      let q : text_lt m m ≡ false = text_lt_irrefl m in cc
  | inr e ↦ e
]

lt-Lower :
    (n v m w : Text) (a b : Mode) → mode_lt ((n, v) ∷ a) ((m, w) ∷ b) ≡ true → Lower n v a m w b
unfolding mode_lt
lt-Lower n v m w a b h = elim (Bool-cases (text_eq n m)) [
  | inr e ↦ inl (rw (e, mode_lt) at h)
  | inl e ↦ elim (Bool-cases (text_eq v w)) [
    | inr f ↦ inr (inl (text_eq_sound n m e, (rw (e, f, mode_lt) at h)))
    | inl f ↦ inr (inr (text_eq_sound n m e, text_eq_sound v w f, (rw (e, f, mode_lt) at h)))
  ]
]

Lower-lt :
    (n v m w : Text) (a b : Mode) → Lower n v a m w b → mode_lt ((n, v) ∷ a) ((m, w) ∷ b) ≡ true
unfolding mode_lt
Lower-lt n v m w a b (inl h) = rw (differ n m h, mode_lt) h
Lower-lt n v m w a b (inr (inl (e, h))) = rw (e, text_eq_refl m, differ v w h, mode_lt) h
Lower-lt n v m w a b (inr (inr (e, f, h))) = rw (e, f, text_eq_refl m, text_eq_refl w, mode_lt) h

Lower-trans :
    (n v m w l u : Text) (a b c : Mode)
    → (mode_lt a b ≡ true → mode_lt b c ≡ true → mode_lt a c ≡ true)
    → Lower n v a m w b
    → Lower m w b l u c
    → Lower n v a l u c
Lower-trans n v m w l u a b c f (inl h) (inl k) = inl (text_lt_trans n m l h k)
Lower-trans n v m w l u a b c f (inl h) (inr (inl (e, k))) = inl (rw (← e) h)
Lower-trans n v m w l u a b c f (inl h) (inr (inr (e, _, k))) = inl (rw (← e) h)
Lower-trans n v m w l u a b c f (inr (inl (e, h))) (inl k) = inl (rw e k)
Lower-trans n v m w l u a b c f (inr (inl (e, h))) (inr (inl (e', k))) =
    inr (inl (e ∙ e', text_lt_trans v w u h k))
Lower-trans n v m w l u a b c f (inr (inl (e, h))) (inr (inr (e', g, k))) =
    inr (inl (e ∙ e', rw (← g) h))
Lower-trans n v m w l u a b c f (inr (inr (e, g, h))) (inl k) = inl (rw e k)
Lower-trans n v m w l u a b c f (inr (inr (e, g, h))) (inr (inl (e', k))) =
    inr (inl (e ∙ e', rw g k))
Lower-trans n v m w l u a b c f (inr (inr (e, g, h))) (inr (inr (e', g', k))) =
    inr (inr (e ∙ e', g ∙ g', f h k))

lt_total : (a b : Mode) → (mode_lt a b ≡ true) ⊎ (mode_lt b a ≡ true) ⊎ (a ≡ b)
unfolding mode_lt
lt_total [] [] = inr (inr refl)
lt_total [] (y ∷ b) = inl refl
lt_total (x ∷ a) [] = inr (inl refl)
lt_total ((n, v) ∷ a) ((m, w) ∷ b) = elim (text_total n m) [
  | inl h ↦ inl (Lower-lt n v m w a b (inl h))
  | inr (inl h) ↦ inr (inl (Lower-lt m w n v b a (inl h)))
  | inr (inr e) ↦ elim (text_total v w) [
    | inl h ↦ inl (Lower-lt n v m w a b (inr (inl (e, h))))
    | inr (inl h) ↦ inr (inl (Lower-lt m w n v b a (inr (inl (sym e, h)))))
    | inr (inr f) ↦ elim (lt_total a b) [
      | inl h ↦ inl (Lower-lt n v m w a b (inr (inr (e, f, h))))
      | inr (inl h) ↦ inr (inl (Lower-lt m w n v b a (inr (inr (sym e, sym f, h)))))
      | inr (inr g) ↦ inr (inr cc)
    ]
  ]
]
  where
    text_total : (n m : Text) → (text_lt n m ≡ true) ⊎ (text_lt m n ≡ true) ⊎ (n ≡ m)
    text_total n m = elim (Bool-cases (text_lt n m)) [
      | inl h ↦ inl h
      | inr h ↦ elim (Bool-cases (text_lt m n)) [
        | inl k ↦ inr (inl k)
        | inr k ↦ inr (inr (text_lt_connex n m h k))
      ]
    ]

lt_trans : (a b c : Mode) → mode_lt a b ≡ true → mode_lt b c ≡ true → mode_lt a c ≡ true
unfolding mode_lt
lt_trans [] [] c h k = cc
lt_trans [] (y ∷ b) [] h k = cc
lt_trans [] (y ∷ b) (z ∷ c) h k = refl
lt_trans (x ∷ a) [] c h k = cc
lt_trans (x ∷ a) (y ∷ b) [] h k = cc
lt_trans ((n, v) ∷ a) ((m, w) ∷ b) ((l, u) ∷ c) h k = Lower-lt n v l u a c (
    Lower-trans n v m w l u a b c (lt_trans a b c) (lt-Lower n v m w a b h)
      (lt-Lower m w l u b c k))

-- `operator<` on modes is a strict total order: no mode is below itself, a mode below a second that
-- is below a third is below the third, and of two modes that are not the same one is below the other.
pub mode_lt-IsStrictOrder :
    (a b c : Mode)
    → (mode_lt a a ≡ false)
      × ((mode_lt a b ≡ false) ⊎ (mode_lt b c ≡ false) ⊎ (mode_lt a c ≡ true))
      × ((mode_lt a b ≡ true) ⊎ (mode_lt b a ≡ true) ⊎ (a ≡ b))
mode_lt-IsStrictOrder a b c = (
  lt_irrefl a,
  elim (Bool-cases (mode_lt a b)) [
    | inr e ↦ inl e
    | inl e ↦ elim (Bool-cases (mode_lt b c)) [
      | inr f ↦ inr (inl f)
      | inl f ↦ inr (inr (lt_trans a b c e f))
    ]
  ],
  lt_total a b,
)
