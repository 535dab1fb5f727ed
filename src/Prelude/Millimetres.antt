-- ===== src/Prelude/Millimetres.antt =====
-- Distances in whole millimetres, with an infinite one: a concrete value of the parameter `Doubles`,
-- at which the theorems are run.
use Prim.Native.Nat.{ℕ, zero, suc, ◌+◌, ◌-◌, ◌*◌, ◌/◌}
use mathlib.Core.Path.{◌≡◌, refl}
use mathlib.Core.Bool.{Bool, true, false, not}
use native.Mathlib.Omega.{arith}
use opera.Prelude.Tests.{ltb, leb, ◌==◌, if◌then◌else◌}
use opera.Prelude.Doubles.{Doubles, IsOrdered}
use opera.Prelude.Arithmetic.{Arithmetic, IsPositive}

pub data Millimetres : Type 0 where
  mm : ℕ → Millimetres
  unbounded : Millimetres

abbrev lt : Millimetres → Millimetres → Bool
lt (mm a) (mm b) = ltb a b
lt (mm a) unbounded = true
lt unbounded b = false

abbrev le : Millimetres → Millimetres → Bool
le (mm a) (mm b) = leb a b
le unbounded (mm b) = false
le a unbounded = true

abbrev eq : Millimetres → Millimetres → Bool
eq (mm a) (mm b) = a == b
eq unbounded unbounded = true
eq a b = false

instance abbrev pub millimetres : Doubles Millimetres
millimetres = record { zero = mm 0; infinity = unbounded; lt = lt; le = le; eq = eq }

le_trans : (a b c : Millimetres) → le a b ≡ true → le b c ≡ true → le a c ≡ true
le_trans a b c h k = ground arith

le_antisymm : (a b : Millimetres) → le a b ≡ true → le b a ≡ true → a ≡ b
le_antisymm a b h k = ground arith

lt_not_le : (a b : Millimetres) → lt a b ≡ not (le b a)
lt_not_le a b = ground arith

le_total : (a b : Millimetres) → le a b ≡ false → le b a ≡ true
le_total a b h = ground arith

eq_sound : (a b : Millimetres) → eq a b ≡ true → a ≡ b
eq_sound a b h = ground arith

pub millimetres-IsOrdered : IsOrdered millimetres
millimetres-IsOrdered = record {
  le_refl = λ a. ground arith;
  le_trans = le_trans;
  le_antisymm = le_antisymm;
  lt_not_le = lt_not_le;
  le_total = le_total;
  eq_sound = eq_sound;
  eq_refl = λ a. ground arith;
  le_infinity = λ a. ground arith;
}

-- An operation on the whole numbers, infinite where an argument is.
abbrev lift : (ℕ → ℕ → ℕ) → Millimetres → Millimetres → Millimetres
lift f (mm x) (mm y) = mm (f x y)
lift f x y = unbounded

abbrev root_loop : ℕ → ℕ → ℕ
root_loop zero n = 0
root_loop (suc k) n = if leb (suc k * suc k) n then suc k else root_loop k n

abbrev root : Millimetres → Millimetres
root (mm n) = mm (root_loop n n)
root unbounded = unbounded

abbrev whole : Millimetres → ℕ
whole (mm n) = n
whole unbounded = 0

-- Whole numbers that do not go below zero.
instance abbrev pub whole_arithmetic : Arithmetic Millimetres
whole_arithmetic = record {
  add = lift (λ x y. x + y);
  sub = lift (λ x y. x - y);
  mul = lift (λ x y. x * y);
  div = lift (λ x y. x / y);
  neg = λ x. mm 0;
  abs = λ x. x;
  sqrt = root;
  pow2 = λ x. lift (λ y z. y * z) x x;
  of_nat = mm;
  floor = whole;
  nan = unbounded;
  isnan = λ x. false;
  small_value = mm 1;
  convergence_threshold = mm 1;
}

le_zero : (x : Millimetres) → le (mm 0) x ≡ true
le_zero (mm n) = ground arith
le_zero unbounded = refl

pub whole-IsPositive : IsPositive millimetres whole_arithmetic
whole-IsPositive = record {
  zero_le_one = refl;
  zero_le_small = refl;
  square_nonneg = λ x. le_zero (whole_arithmetic.mul x x);
  add_nonneg = λ x y h k. le_zero (whole_arithmetic.add x y);
}
