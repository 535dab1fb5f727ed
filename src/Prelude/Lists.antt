-- ===== src/Prelude/Lists.antt =====
-- Lists measured and indexed by native numbers, as the deques and vectors of the source are used.
use Prim.Native.Nat.{ℕ, zero, suc, ◌+◌, ◌-◌, ◌≤◌, ◌<◌, min}
use mathlib.Core.Path.{◌≡◌, refl, ap, ◌∙◌, subst}
use mathlib.Core.Bool.{Bool, true, false}
use mathlib.Core.List.{List, [], ◌∷◌, ◌++◌}
use mathlib.Core.Option.{Option, none, some}
use mathlib.Core.Logic.{◌⊎◌, inl, inr}
use native.Mathlib.Omega.{arith}
use opera.Prelude.Results.{Result, ok, err, out_of_range, undefined}

module _ {ℓ} {A : Type ℓ} where
  abbrev pub length : List A → ℕ
  length [] = 0
  length (x ∷ xs) = suc (length xs)

  -- empty()
  abbrev pub is_nil : List A → Bool
  is_nil [] = true
  is_nil (x ∷ xs) = false

  -- at(i)
  abbrev pub at : List A → ℕ → Result A
  at [] i = err out_of_range
  at (x ∷ xs) zero = ok x
  at (x ∷ xs) (suc i) = at xs i

  -- back(), undefined on an empty container
  abbrev pub back : List A → Result A
  back [] = err undefined
  back (x ∷ []) = ok x
  back (x ∷ y ∷ xs) = back (y ∷ xs)

  -- front()
  abbrev pub front : List A → Result A
  front [] = err undefined
  front (x ∷ xs) = ok x

  -- pop_back() on a container that is not empty
  abbrev pub drop_last : List A → List A
  drop_last [] = []
  drop_last (x ∷ []) = []
  drop_last (x ∷ y ∷ xs) = x ∷ drop_last (y ∷ xs)

  -- back() = v on a container that is not empty
  abbrev pub set_back : List A → A → List A
  set_back [] v = []
  set_back (x ∷ []) v = v ∷ []
  set_back (x ∷ y ∷ xs) v = x ∷ set_back (y ∷ xs) v

  -- An assignment to at(i).
  abbrev pub set_at : List A → ℕ → A → List A
  set_at [] i v = []
  set_at (x ∷ xs) zero v = v ∷ xs
  set_at (x ∷ xs) (suc i) v = x ∷ set_at xs i v

  abbrev pub take : ℕ → List A → List A
  take zero xs = []
  take (suc n) [] = []
  take (suc n) (x ∷ xs) = x ∷ take n xs

  abbrev pub drop : ℕ → List A → List A
  drop zero xs = xs
  drop (suc n) [] = []
  drop (suc n) (x ∷ xs) = drop n xs

  abbrev pub replicate : ℕ → A → List A
  replicate zero a = []
  replicate (suc n) a = a ∷ replicate n a

  pub length-append : (xs ys : List A) → length (xs ++ ys) ≡ length xs + length ys
  length-append [] ys = omega arith
  length-append (x ∷ xs) ys = omega (arith, length-append xs ys)

  pub length-take : (n : ℕ) (xs : List A) → length (take n xs) ≡ min n (length xs)
  length-take zero xs = omega arith
  length-take (suc n) [] = omega arith
  length-take (suc n) (x ∷ xs) = omega (arith, length-take n xs)

  pub length-drop : (n : ℕ) (xs : List A) → length (drop n xs) ≡ length xs - n
  length-drop zero xs = omega arith
  length-drop (suc n) [] = omega arith
  length-drop (suc n) (x ∷ xs) = omega (arith, length-drop n xs)

  pub length-replicate : (n : ℕ) (a : A) → length (replicate n a) ≡ n
  length-replicate zero a = refl
  length-replicate (suc n) a = ap suc (length-replicate n a)

  pub length-drop_last : (xs : List A) → length (drop_last xs) ≡ length xs - 1
  length-drop_last [] = omega arith
  length-drop_last (x ∷ []) = omega arith
  length-drop_last (x ∷ y ∷ xs) = omega (arith, length-drop_last (y ∷ xs))

  pub length-set_back : (xs : List A) (v : A) → length (set_back xs v) ≡ length xs
  length-set_back [] v = refl
  length-set_back (x ∷ []) v = refl
  length-set_back (x ∷ y ∷ xs) v = ap suc (length-set_back (y ∷ xs) v)

  pub take-all : (n : ℕ) (xs : List A) → length xs ≤ n → take n xs ≡ xs
  take-all zero [] h = refl
  take-all zero (x ∷ xs) h = absurd (omega arith)
  take-all (suc n) [] h = refl
  take-all (suc n) (x ∷ xs) h = ap (◌∷◌ x) (take-all n xs (omega arith))

  pub take-drop_last : (n : ℕ) (xs : List A) → n < length xs → take n (drop_last xs) ≡ take n xs
  take-drop_last zero xs h = refl
  take-drop_last (suc n) [] h = refl
  take-drop_last (suc n) (x ∷ []) h = absurd (omega arith)
  take-drop_last (suc n) (x ∷ y ∷ xs) h = ap (◌∷◌ x) (take-drop_last n (y ∷ xs) (omega arith))

  pub at-drop : (n : ℕ) (xs : List A) (i : ℕ) → n ≤ length xs → at (drop n xs) i ≡ at xs (n + i)
  at-drop zero xs i h = let e : i ≡ 0 + i = omega arith in ap (at xs) e
  at-drop (suc n) [] i h = absurd (omega arith)
  at-drop (suc n) (x ∷ xs) i h =
      let e : suc (n + i) ≡ suc n + i = omega arith in
      at-drop n xs i (omega arith) ∙ ap (at (x ∷ xs)) e

  pub at-ok : (xs : List A) (i : ℕ) → i < length xs → (a : A) × (at xs i ≡ ok a)
  at-ok [] i h = absurd (omega arith)
  at-ok (x ∷ xs) zero h = (x, refl)
  at-ok (x ∷ xs) (suc i) h = at-ok xs i (omega arith)

  pub back-ok : (xs : List A) → 0 < length xs → (a : A) × (back xs ≡ ok a)
  back-ok [] h = absurd (omega arith)
  back-ok (x ∷ []) h = (x, refl)
  back-ok (x ∷ y ∷ xs) h = back-ok (y ∷ xs) (omega arith)

-- A predicate on every element.
abbrev pub All {ℓ κ} : {A : Type ℓ} → (A → Type κ) → List A → Type κ
All P [] = Unit
All P (x ∷ xs) = P x × All P xs

pub All-at {ℓ κ} :
    {A : Type ℓ} (P : A → Type κ) (xs : List A) (i : ℕ) {a : A} → All P xs → at xs i ≡ ok a → P a
All-at P [] i h e = absurd (cc)
All-at P (x ∷ xs) zero {a} h e = subst P (cc) h.0
All-at P (x ∷ xs) (suc i) h e = All-at P xs i h.1 e

pub at-lt {ℓ} : {A : Type ℓ} (xs : List A) (i : ℕ) {a : A} → at xs i ≡ ok a → i < length xs
at-lt [] i e = absurd (cc)
at-lt (x ∷ xs) zero e = omega arith
at-lt (x ∷ xs) (suc i) e = omega (arith, at-lt xs i e)

module _ {ℓ} {A : Type ℓ} where
  pub back-append : (xs : List A) (a : A) → back (xs ++ a ∷ []) ≡ ok a
  back-append [] a = refl
  back-append (x ∷ []) a = refl
  back-append (x ∷ y ∷ xs) a = back-append (y ∷ xs) a

  pub back-set_back : (xs : List A) (a : A) → 0 < length xs → back (set_back xs a) ≡ ok a
  back-set_back [] a h = absurd (omega arith)
  back-set_back (x ∷ []) a h = refl
  back-set_back (x ∷ y ∷ []) a h = refl
  back-set_back (x ∷ y ∷ z ∷ xs) a h = back-set_back (y ∷ z ∷ xs) a (omega arith)

  pub at-pred_length : (xs : List A) → 0 < length xs → at xs (length xs - 1) ≡ back xs
  at-pred_length [] h = absurd (omega arith)
  at-pred_length (x ∷ []) h = refl
  at-pred_length (x ∷ y ∷ xs) h =
      let e : length (x ∷ y ∷ xs) - 1 ≡ suc (length (y ∷ xs) - 1) = omega arith in
      ap (at (x ∷ y ∷ xs)) e ∙ at-pred_length (y ∷ xs) (omega arith)

  pub back-pos : (xs : List A) {a : A} → back xs ≡ ok a → 0 < length xs
  back-pos [] e = absurd (cc)
  back-pos (x ∷ xs) e = omega arith

pub Option-cases {ℓ} : {A : Type ℓ} (o : Option A) → (o ≡ none) ⊎ ((a : A) × (o ≡ some a))
Option-cases none = inl refl
Option-cases (some a) = inr (a, refl)

module _ {ℓ κ} {A : Type ℓ} (P : A → Type κ) where
  pub All-drop_last : (xs : List A) → All P xs → All P (drop_last xs)
  All-drop_last [] h = tt
  All-drop_last (x ∷ []) h = tt
  All-drop_last (x ∷ y ∷ xs) h = (h.0, All-drop_last (y ∷ xs) h.1)

  pub All-set_back : (xs : List A) (v : A) → All P (drop_last xs) → P v → All P (set_back xs v)
  All-set_back [] v h p = tt
  All-set_back (x ∷ []) v h p = (p, tt)
  All-set_back (x ∷ y ∷ xs) v h p = (h.0, All-set_back (y ∷ xs) v h.1 p)

  pub All-take : (n : ℕ) (xs : List A) → All P xs → All P (take n xs)
  All-take zero xs h = tt
  All-take (suc n) [] h = tt
  All-take (suc n) (x ∷ xs) h = (h.0, All-take n xs h.1)

  -- From what holds at each index below the count.
  pub All-take-at :
      (n : ℕ) (xs : List A) → ((i : ℕ) (a : A) → at xs i ≡ ok a → i < n → P a) → All P (take n xs)
  All-take-at zero xs h = tt
  All-take-at (suc n) [] h = tt
  All-take-at (suc n) (x ∷ xs) h =
      (h 0 x refl (omega arith), All-take-at n xs (λ i a e k. h (suc i) a e (omega arith)))

pub All-map {ℓ κ μ} :
    {A : Type ℓ} (P : A → Type κ) (Q : A → Type μ)
    → ((a : A) → P a → Q a)
    → (xs : List A) → All P xs
    → All Q xs
All-map P Q f [] h = tt
All-map P Q f (x ∷ xs) h = (f x h.0, All-map P Q f xs h.1)
