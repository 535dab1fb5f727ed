-- ===== src/Geometry/Median.antt =====
-- `average` and `geometric_median` (src/geometry.cpp).
use opera.Prelude.{
  ℕ, zero, suc, ◌+◌, ◌-◌, List, [], ◌∷◌, ◌++◌, Bool, true, false, not, ltb, ◌==◌, if◌then◌else◌,
  Result, ok, assert, ◌>>=◌, ◌>>◌, length, is_nil, at,
}
use opera.Prelude.Doubles.{Doubles}
use opera.Prelude.Arithmetic.{Arithmetic}
use opera.Geometry.{Point, point, plus, divide}
use opera.Geometry.Segments.{point_distance}

-- NUM_ITERATIONS
abbrev pub num_iterations : ℕ
num_iterations = 200

-- The sums of one iteration: denum, d and num.
pub record Sums (F : Type 0) : Type 0 where
  pub denum : F
  pub d : F
  pub num : Point F

module _ {F : Type 0} ⦃f : Doubles F⦄ ⦃a : Arithmetic F⦄ where
  unfoldable pub sum_points : List (Point F) → Point F → Point F
  sum_points [] total = total
  sum_points (p ∷ ps) total = sum_points ps (plus total p)

  unfoldable pub average : List (Point F) → Result (Point F)
  average pts = do
    assert (not (is_nil pts))
    ok (divide (sum_points pts (point f.zero f.zero f.zero)) (a.of_nat (length pts)))

  unfoldable pub sum_distances : List (Point F) → Point F → Sums F → Sums F
  sum_distances [] r s = s
  sum_distances (p ∷ ps) r s =
      let div = point_distance p r in
      sum_distances ps r (record {
        denum = a.add s.denum (a.div (a.of_nat 1) div);
        d = a.add s.d (a.pow2 div);
        num = plus s.num (divide p div);
      })

  -- Whether the last two but one of the sums of squares are near.
  unfoldable pub converged : ℕ → List F → Result Bool
  converged i dist = do
    last ← at dist i
    former ← at dist (i - 2)
    ok (f.lt (a.div (a.abs (a.sub last former)) last) a.convergence_threshold)

  -- The loop, with the iterations left: the median and the number of iterations made.
  unfoldable pub median_loop :
      ℕ → List (Point F) → Bool → ℕ → Point F → List F → Result (Point F × ℕ)
  median_loop zero pts convergence i r dist = ok (r, i)
  median_loop (suc left) pts convergence i r dist = elim convergence [
    | true ↦ ok (r, i)
    | false ↦
        let s : Sums F =
          sum_distances pts r
            (record { denum = f.zero; d = f.zero; num = point f.zero f.zero f.zero }) in
        (if ltb 3 i then converged i (dist ++ s.d ∷ []) else ok false) >>= λ convergence'.
        median_loop left pts convergence' (i + 1) (divide s.num s.denum) (dist ++ s.d ∷ [])
  ]

  unfoldable pub geometric_median : List (Point F) → Result (Point F)
  geometric_median pts =
      if length pts == 1
      then at pts 0
      else (average pts >>= λ r.
          median_loop num_iterations pts false 0 r [] >>= λ (m : Point F × ℕ).
          assert (ltb m.1 num_iterations) >> ok m.0)
