-- ===== src/Prelude/Results.antt =====
-- What a call of the source may end in: a value, or one of the exceptions of include/macros.hpp and
-- of the standard containers. `undefined` stands for undefined behaviour (an access to the end of
-- an empty container), `out_of_fuel` for a loop whose rounds ran out.
use mathlib.Core.Path.{◌≡◌, refl}
use mathlib.Core.Bool.{Bool, true, false}

-- An exception by its kind.
pub data Error : Type 0 where
  precondition : Error
  assertion : Error
  out_of_range : Error
  undefined : Error
  out_of_fuel : Error
  -- OPERA_THROW_RTE(msg)
  runtime_error : Error

pub data Result {ℓ} (V : Type ℓ) : Type ℓ where
  err : Error → Result V
  ok : V → Result V

infixl 5 ◌>>=◌
infixl 5 ◌>>◌
-- What follows a call runs on its value only.
abbrev pub ◌>>=◌ {ℓ₁ ℓ₂} : {V : Type ℓ₁} {W : Type ℓ₂} → Result V → (V → Result W) → Result W
err why >>= next = err why
ok v >>= next = next v

abbrev pub ◌>>◌ {ℓ₂} : {W : Type ℓ₂} → Result (Unit {0}) → Result W → Result W
first >> next = first >>= λ _. next

-- OPERA_PRECONDITION(b)
abbrev pub require : Bool → Result (Unit {0})
require true = ok tt
require false = err precondition

-- OPERA_ASSERT_MSG(b,msg)
abbrev pub assert : Bool → Result (Unit {0})
assert true = ok tt
assert false = err assertion

-- A call that ended in a value.
abbrev pub Succeeds {ℓ} : {A : Type ℓ} → Result A → Type ℓ
Succeeds {A = A} r = (a : A) × (r ≡ ok a)

pub ok-eq {ℓ} : {A : Type ℓ} (x y : A) → ◌≡◌ {A = Result A} (ok x) (ok y) → x ≡ y
ok-eq x y h = cc

pub >>=-eq-ok {ℓ₁ ℓ₂} :
    {V : Type ℓ₁} {W : Type ℓ₂} (first : Result V) (next : V → Result W) {w : W}
    → (first >>= next) ≡ ok w
    → (v : V) × (first ≡ ok v) × (next v ≡ ok w)
>>=-eq-ok (err why) next returns = cc
>>=-eq-ok (ok v) next returns = (v, refl, returns)

pub ok_pair {ℓ κ} :
    {A : Type ℓ} {B : Type κ} (a c : A) (b d : B)
    → ◌≡◌ {A = Result (A × B)} (ok (a, b)) (ok (c, d))
    → (a ≡ c) × (b ≡ d)
ok_pair a c b d h = (cc, cc)
