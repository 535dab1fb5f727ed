-- ===== src/ModeTrace/Ending.antt =====
-- How the while loop of `next_modes` of mode traces ends (src/mode.cpp).
use opera.Prelude.{
  ℕ, zero, suc, ◌+◌, ◌-◌, ◌≤◌, ◌<◌, ◌≡◌, ◌≢◌, refl, sym, ◌∙◌, List, [], ◌∷◌, Bool, true, false, not,
  ltb, if◌then◌else◌, Bool-cases, inl, inr, Result, ok, err, out_of_fuel, ◌>>=◌, length, is_nil, at,
  arith,
}
use opera.Prelude.Texts.{text_eq, text_lt}
use opera.Barrier.{sub64}
use opera.Mode.{Mode, mode_eq, eq_loop}
use opera.ModeTrace.{ModeTrace, ModeTraceEntry, Likelihoods, push_back, empty, likelihood}
use opera.ModeTrace.Next.{
  RobotDiscreteTraceBacktracking, start_tracking, step_back, step_all, num_valid, backtrack_loop,
  compute_next_modes, next_modes,
}

-- A call whose loops end by their tests, and whose value has a property.
abbrev EndsIn {ℓ} : {A : Type ℓ} → (A → Type 0) → Result A → Type 0
EndsIn P (ok v) = P v
EndsIn P (err why) = why ≢ out_of_fuel

abbrev Ends {ℓ} : {A : Type ℓ} → Result A → Type 0
Ends r = EndsIn (λ v. Unit) r

>>=-EndsIn {ℓ₁ ℓ₂} :
    {V : Type ℓ₁} {W : Type ℓ₂} (P : V → Type 0) (Q : W → Type 0) (first : Result V)
    (next : V → Result W)
    → EndsIn P first
    → ((v : V) → P v → EndsIn Q (next v))
    → EndsIn Q (first >>= next)
>>=-EndsIn P Q (err why) next h k = h
>>=-EndsIn P Q (ok v) next h k = k v h

if-EndsIn {ℓ} :
    {A : Type ℓ} (P : A → Type 0) (b : Bool) (x y : Result A)
    → (b ≡ true → EndsIn P x)
    → (b ≡ false → EndsIn P y)
    → EndsIn P (if b then x else y)
if-EndsIn P true x y h k = h refl
if-EndsIn P false x y h k = k refl

never {ℓ} : {A : Type ℓ} (r : Result A) → Ends r → r ≢ err out_of_fuel
never (ok v) h = λ e. cc
never (err why) h = λ e. h (cc)

at-Ends {ℓ} : {A : Type ℓ} (xs : List A) (i : ℕ) → Ends (at xs i)
at-Ends [] i = λ e. cc
at-Ends (x ∷ xs) zero = tt
at-Ends (x ∷ xs) (suc i) = at-Ends xs i

eq_loop-Ends :
    (fuel : ℕ) (q1 q2 : Mode) (identical : Bool)
    → length q1 + length q2 < fuel
    → Ends (eq_loop fuel q1 q2 identical)
unfolding eq_loop
eq_loop-Ends zero q1 q2 identical f = absurd (omega arith)
eq_loop-Ends (suc fuel) [] [] true f = tt
eq_loop-Ends (suc fuel) [] [] false f = λ e. cc
eq_loop-Ends (suc fuel) [] (e ∷ q2) true f = λ e. cc
eq_loop-Ends (suc fuel) [] (e ∷ q2) false f = λ e. cc
eq_loop-Ends (suc fuel) (e ∷ q1) [] identical f = λ e. cc
eq_loop-Ends (suc fuel) ((k1, v1) ∷ q1) ((k2, v2) ∷ q2) identical f =
    elim (Bool-cases (text_eq k1 k2)) [
      | inl e ↦ elim (Bool-cases (text_eq v1 v2)) [
        | inl g ↦ rw (e, g, eq_loop) (eq_loop-Ends fuel q1 q2 identical (omega arith))
        | inr g ↦ rw (e, g, eq_loop) tt
      ]
      | inr e ↦ elim (Bool-cases (text_lt k1 k2)) [
        | inl g ↦ rw (e, g, eq_loop) (eq_loop-Ends fuel q1 ((k2, v2) ∷ q2) false (omega arith))
        | inr g ↦ rw (e, g, eq_loop) (eq_loop-Ends fuel ((k1, v1) ∷ q1) q2 false (omega arith))
      ]
    ]

mode_eq-Ends : (q1 q2 : Mode) → Ends (mode_eq q1 q2)
unfolding mode_eq
mode_eq-Ends q1 q2 = eq_loop-Ends (suc (length q1 + length q2)) q1 q2 true (omega arith)

module _ {F : Type 0} where
  -- A backtracking that can go on has fewer entries before it than the number.
  unfoldable Within : ℕ → RobotDiscreteTraceBacktracking F → Type 0
  Within n st = st.is_valid ≡ true → st.index < n

  unfoldable AllWithin : ℕ → List (RobotDiscreteTraceBacktracking F) → Type 0
  AllWithin n [] = Unit
  AllWithin n (st ∷ sts) = Within n st × AllWithin n sts

module _ {F : Type 0} ⦃l : Likelihoods F⦄ where
  AllWithin-none :
      (sts : List (RobotDiscreteTraceBacktracking F)) → AllWithin 0 sts → num_valid sts ≡ 0
  unfolding AllWithin Within num_valid
  AllWithin-none [] h = refl
  AllWithin-none (st ∷ sts) (here, there) = elim (Bool-cases st.is_valid) [
    | inl e ↦ absurd (let i = here e in omega arith)
    | inr e ↦ rw e (AllWithin-none sts there)
  ]

  push_back-Ends : (t : ModeTrace F) (m : Mode) (f : F) → Ends (push_back t m f)
  unfolding push_back likelihood
  push_back-Ends t m f =
      >>=-EndsIn (λ v. Unit) (λ v. Unit) (likelihood t) _
        (if-EndsIn (λ v. Unit) (is_nil t.entries) _ _ (λ e. tt)
          (λ e.
            >>=-EndsIn (λ v. Unit) (λ v. Unit) (at t.entries (length t.entries - 1)) _
              (at-Ends t.entries (length t.entries - 1)) (λ v h. tt)))
        (λ v h. tt)

  stepped :
      (n : ℕ) (same : Bool) (st st' : RobotDiscreteTraceBacktracking F)
      → Within n st
      → st'.is_valid ≡ false
      → Within n (if same then st else st')
  unfolding Within
  stepped n true st st' h k = h
  stepped n false st st' h k = λ v. absurd (let contra = sym k ∙ v in cc)

  step_back-Within :
      (n : ℕ) (es : List (ModeTraceEntry F)) (m : ℕ) (st : RobotDiscreteTraceBacktracking F)
      → Within (suc n) st
      → EndsIn (Within n) (step_back es m st)
  unfolding step_back Within
  step_back-Within n es m st h =
      if-EndsIn (Within n) (not st.is_valid) _ _ (λ e v. absurd (ground arith))
        (λ e.
          if-EndsIn (Within n) (ltb 0 st.index) _ _
            (λ g.
              >>=-EndsIn (λ v. Unit) (Within n) (at es (st.index - 1)) _ (at-Ends es _)
                (λ f _.
                  >>=-EndsIn (λ v. Unit) (Within n) (at es (sub64 (length es - 1) m)) _
                    (at-Ends es _)
                    (λ f' _.
                      >>=-EndsIn (λ v. Unit) (Within n) (mode_eq f.mode f'.mode) _
                        (mode_eq-Ends f.mode f'.mode)
                        (λ same _. stepped n same _ _ (λ v. let i = h v in ground arith) refl))))
            (λ g v. absurd (ground arith)))

  step_all-AllWithin :
      (n : ℕ) (es : List (ModeTraceEntry F)) (m : ℕ) (sts : List (RobotDiscreteTraceBacktracking F))
      → AllWithin (suc n) sts
      → EndsIn (AllWithin n) (step_all es m sts)
  unfolding step_all AllWithin
  step_all-AllWithin n es m [] h = tt
  step_all-AllWithin n es m (st ∷ sts) (here, there) =
      >>=-EndsIn (Within n) (AllWithin n) (step_back es m st) _ (step_back-Within n es m st here)
        (λ st' w.
          >>=-EndsIn (AllWithin n) (AllWithin n) (step_all es m sts) _
            (step_all-AllWithin n es m sts there) (λ sts' ws. (w, ws)))

  backtrack_loop-Ends :
      (n : ℕ) (es : List (ModeTraceEntry F)) (sts : List (RobotDiscreteTraceBacktracking F))
      (m having : ℕ)
      → AllWithin n sts
      → Ends (backtrack_loop (suc n) es sts m having)
  unfolding backtrack_loop
  backtrack_loop-Ends zero es sts m having h = rw (AllWithin-none sts h, backtrack_loop) tt
  backtrack_loop-Ends (suc n) es sts m having h = elim (Bool-cases (ltb 0 (num_valid sts))) [
    | inl e ↦
        rw (e, backtrack_loop)
          (>>=-EndsIn (AllWithin n) (λ v. Unit) (step_all es (m + 1) sts) _
            (step_all-AllWithin n es (m + 1) sts h)
            (λ sts' w. backtrack_loop-Ends n es sts' (m + 1) (num_valid sts) w))
    | inr e ↦ rw (e, backtrack_loop) tt
  ]

  start_tracking-AllWithin :
      (n : ℕ) (es : List (ModeTraceEntry F)) (i : ℕ) (last : Mode)
      → i + length es ≤ n
      → EndsIn (AllWithin n) (start_tracking es i last)
  unfolding start_tracking AllWithin Within
  start_tracking-AllWithin n [] i last h = tt
  start_tracking-AllWithin n (e ∷ []) i last h = tt
  start_tracking-AllWithin n (e ∷ next ∷ es) i last h =
      let rest = start_tracking-AllWithin n (next ∷ es) (i + 1) last (omega arith) in
      >>=-EndsIn (λ v. Unit) (AllWithin n) (mode_eq e.mode last) _ (mode_eq-Ends e.mode last)
        (λ same _.
          if-EndsIn (AllWithin n) same _ _
            (λ _.
              >>=-EndsIn (λ v. Unit) (AllWithin n) (push_back empty e.mode e.likelihood) _
                (push_back-Ends empty e.mode e.likelihood)
                (λ t _.
                  >>=-EndsIn (AllWithin n) (AllWithin n) (start_tracking (next ∷ es) (i + 1) last) _
                    rest (λ sts ws. ((λ v. omega arith), ws))))
            (λ _. rest))

  compute_next_modes-Ends : (es : List (ModeTraceEntry F)) → Ends (compute_next_modes es)
  unfolding compute_next_modes
  compute_next_modes-Ends es =
      >>=-EndsIn (λ v. Unit) (λ v. Unit) (at es (sub64 (length es) 1)) _ (at-Ends es _)
        (λ last _.
          >>=-EndsIn (AllWithin (length es)) (λ v. Unit) (start_tracking es 0 last.mode) _
            (start_tracking-AllWithin (length es) es 0 last.mode (omega arith))
            (λ sts ws.
              >>=-EndsIn (λ v. Unit) (λ v. Unit) (backtrack_loop (suc (length es)) es sts 0 0) _
                (backtrack_loop-Ends (length es) es sts 0 0 ws) (λ r _. tt)))

  abbrev keep : ModeTrace F → List (Mode × F) → Result (List (Mode × F) × ModeTrace F)
  keep t modes = ok (modes, record t { next_modes = modes })

  abbrev again : List (Mode × F) × ModeTrace F → Result (List (Mode × F) × ModeTrace F)
  again kept = next_modes kept.1

  kept_modes :
      (t : ModeTrace F) (r : Result (List (Mode × F)))
      → compute_next_modes t.entries ≡ r
      → (r >>= keep t >>= again) ≡ (r >>= keep t)
  unfolding next_modes
  kept_modes t (err why) e = refl
  kept_modes t (ok []) e = rw e refl
  kept_modes t (ok (m ∷ modes)) e = refl

  -- On every trace the backtracking of `next_modes` ends by its test, for which as many rounds as
  -- the trace has entries, and one more, are enough; and a second call, on the trace that keeps
  -- what the first has computed, ends as the first does.
  pub next_modes-ends :
      (t : ModeTrace F)
      → (next_modes t ≢ err out_of_fuel)
        × ((next_modes t >>= λ kept. next_modes kept.1) ≡ next_modes t)
  unfolding next_modes
  next_modes-ends t = (
    never (next_modes t) (
        if-EndsIn (λ v. Unit) (is_nil t.next_modes) _ _
          (λ e.
            >>=-EndsIn (λ v. Unit) (λ v. Unit) (compute_next_modes t.entries) _
              (compute_next_modes-Ends t.entries) (λ modes _. tt))
          (λ e. tt)),
    elim (Bool-cases (is_nil t.next_modes)) [
      | inl e ↦ rw (e, next_modes) (kept_modes t (compute_next_modes t.entries) refl)
      | inr e ↦ rw (e, next_modes) (rw e refl)
    ],
  )
