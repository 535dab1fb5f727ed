-- ===== src/Geometry/Boxes.antt =====
-- What hulls and disjoint boxes are (src/geometry.cpp), for coordinates that are no NaN.
use opera.Prelude.{◌≡◌, refl, ◌⊎◌, inl, inr, Bool, true, false, ◌&&◌, ◌||◌, Bool-cases, arith}
use opera.Prelude.Doubles.{Doubles, IsOrdered, lt_le, not_lt_le}
use opera.Geometry.{Point, Box, point, fmin, fmax, hull, is_empty, disjoint}

module _ {F : Type 0} ⦃d : Doubles F⦄ where
  -- The point is in the box.
  unfoldable pub contains : Box F → Point F → Bool
  contains b p =
      (d.le b.xl p.x && d.le p.x b.xu)
      && ((d.le b.yl p.y && d.le p.y b.yu) && (d.le b.zl p.z && d.le p.z b.zu))

  -- The first box is within the second.
  unfoldable pub within : Box F → Box F → Bool
  within c b =
      (d.le b.xl c.xl && d.le c.xu b.xu)
      && ((d.le b.yl c.yl && d.le c.yu b.yu) && (d.le b.zl c.zl && d.le c.zu b.zu))

-- Conjunctions of conjunctions, the other way round.
pub exchange : (a b c e : Bool) → (a && c) && (b && e) ≡ (a && b) && (c && e)
exchange false b c e = refl
exchange true false true e = refl
exchange true false false e = refl
exchange true true c e = refl

pub exchange_axes :
    (x x' y y' z z' : Bool)
    → (x && x') && ((y && y') && (z && z')) ≡ (x && (y && z)) && (x' && (y' && z'))
exchange_axes x x' y y' z z' = rw (exchange y z y' z', exchange x (y && z) x' (y' && z')) refl

module _ {F : Type 0} ⦃d : Doubles F⦄ (o : IsOrdered d) where
  pub le-fmin : (l v w : F) → d.le l (fmin v w) ≡ d.le l v && d.le l w
  unfolding fmin
  le-fmin l v w = ground (arith, lt_le o w v, not_lt_le o w v, o.le_trans l w v, o.le_trans l v w)

  pub fmax-le : (u v w : F) → d.le (fmax v w) u ≡ d.le v u && d.le w u
  unfolding fmax
  fmax-le u v w = ground (arith, lt_le o v w, not_lt_le o v w, o.le_trans v w u, o.le_trans w v u)

  -- A side of a hull is within a side of a box if both coordinates are.
  side :
      (l u v w : F)
      → d.le l (fmin v w) && d.le (fmax v w) u ≡ (d.le l v && d.le v u) && (d.le l w && d.le w u)
  side l u v w =
      rw (le-fmin l v w, fmax-le u v w, exchange (d.le l v) (d.le v u) (d.le l w) (d.le w u)) refl

  -- The hull of two points is the least box that contains them: it is within a box exactly if the
  -- box contains both. The condition is that no coordinate is a NaN.
  pub hull-within : (p q : Point F) (b : Box F) → within (hull p q) b ≡ contains b p && contains b q
  unfolding within hull contains
  hull-within p q b =
      rw (side b.xl b.xu p.x q.x, side b.yl b.yu p.y q.y, side b.zl b.zu p.z q.z)
        (exchange_axes (d.le b.xl p.x && d.le p.x b.xu) (d.le b.xl q.x && d.le q.x b.xu)
          (d.le b.yl p.y && d.le p.y b.yu) (d.le b.yl q.y && d.le q.y b.yu)
          (d.le b.zl p.z && d.le p.z b.zu) (d.le b.zl q.z && d.le q.z b.zu))

  axis :
      (l u l' u' : F)
      → d.lt u l ≡ false
      → d.lt u' l' ≡ false
      → d.lt u l' ≡ false
      → d.lt u' l ≡ false
      → (d.le l (fmax l l') && d.le (fmax l l') u ≡ true)
        × (d.le l' (fmax l l') && d.le (fmax l l') u' ≡ true)
  unfolding fmax
  axis l u l' u' h h' k k' = ground (
    arith,
    not_lt_le o u l h,
    not_lt_le o u' l' h',
    not_lt_le o u l' k,
    not_lt_le o u' l k',
    lt_le o l l',
    not_lt_le o l l',
    o.le_refl l,
    o.le_refl l',
  )

  -- No coordinate is in two intervals that are apart.
  apart :
      (x l u l' u' : F)
      → d.lt u l' || d.lt u' l ≡ true
      → (d.le l x && d.le x u) && (d.le l' x && d.le x u') ≡ false
  apart x l u l' u' h =
      ground (arith, o.lt_not_le u l', o.lt_not_le u' l, o.le_trans l' x u, o.le_trans l x u')

  -- `disjoint` is right for boxes that are not empty: it holds exactly if no point is in both boxes,
  -- and where it does not hold there is a point in both. The condition is that no coordinate is a
  -- NaN.
  pub disjoint-decides :
      (b c : Box F)
      → is_empty b ≡ false
      → is_empty c ≡ false
      → (disjoint b c ≡ true) × ((p : Point F) → contains b p && contains c p ≡ false)
        ⊎ (disjoint b c ≡ false) × ((p : Point F) × (contains b p && contains c p ≡ true))
  unfolding disjoint is_empty contains
  disjoint-decides b c h k = elim (Bool-cases (d.lt b.xu c.xl || d.lt c.xu b.xl)) [
    | inl e ↦ inl (ground (arith, e), λ p. ground (arith, apart p.x b.xl b.xu c.xl c.xu e))
    | inr e ↦ elim (Bool-cases (d.lt b.yu c.yl || d.lt c.yu b.yl)) [
      | inl e' ↦ inl (ground (arith, e'), λ p. ground (arith, apart p.y b.yl b.yu c.yl c.yu e'))
      | inr e' ↦ elim (Bool-cases (d.lt b.zu c.zl || d.lt c.zu b.zl)) [
        | inl e'' ↦
            inl (ground (arith, e''), λ p. ground (arith, apart p.z b.zl b.zu c.zl c.zu e''))
        | inr e'' ↦
            let (bx, cx) =
              axis b.xl b.xu c.xl c.xu (ground (arith, h)) (ground (arith, k)) (ground (arith, e))
                (ground (arith, e)) in
            let (by, cy) =
              axis b.yl b.yu c.yl c.yu (ground (arith, h)) (ground (arith, k)) (ground (arith, e'))
                (ground (arith, e')) in
            let (bz, cz) =
              axis b.zl b.zu c.zl c.zu (ground (arith, h)) (ground (arith, k)) (ground (arith, e''))
                (ground (arith, e'')) in
            inr (
              ground (arith, e, e', e''),
              (
                point (fmax b.xl c.xl) (fmax b.yl c.yl) (fmax b.zl c.zl),
                rw (bx, cx, by, cy, bz, cz),
              ),
            )
      ]
    ]
  ]
