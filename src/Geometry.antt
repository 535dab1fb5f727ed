-- ===== src/Geometry.antt =====
-- Points, boxes and spheres (include/geometry.hpp, src/geometry.cpp) over the machine's doubles.
pub mod Segments
pub mod Median
pub mod Boxes
pub mod Parameters
mod Tests
use opera.Prelude.{
  ℕ, Bool, true, false, not, ◌&&◌, ◌||◌, if◌then◌else◌, Result, ok, require, ◌>>=◌, ◌>>◌,
}
use opera.Prelude.Doubles.{Doubles}
use opera.Prelude.Arithmetic.{Arithmetic}

pub record Point (F : Type 0) : Type 0 where
  pub x : F
  pub y : F
  pub z : F

pub record Box (F : Type 0) : Type 0 where
  pub xl : F
  pub xu : F
  pub yl : F
  pub yu : F
  pub zl : F
  pub zu : F

pub record Sphere (F : Type 0) : Type 0 where
  pub centre : Point F
  pub radius : F

abbrev pub point : {F : Type 0} → F → F → F → Point F
point a b c = record { x = a; y = b; z = c }

module _ {F : Type 0} ⦃a : Arithmetic F⦄ where
  unfoldable pub is_undefined : Point F → Bool
  is_undefined p = a.isnan p.x && (a.isnan p.y && a.isnan p.z)

  unfoldable pub dot : Point F → Point F → F
  dot v w = a.add (a.add (a.mul v.x w.x) (a.mul v.y w.y)) (a.mul v.z w.z)

  unfoldable pub minus : Point F → Point F → Point F
  minus v w = point (a.sub v.x w.x) (a.sub v.y w.y) (a.sub v.z w.z)

  unfoldable pub plus : Point F → Point F → Point F
  plus v w = point (a.add v.x w.x) (a.add v.y w.y) (a.add v.z w.z)

  unfoldable pub scale : F → Point F → Point F
  scale s v = point (a.mul s v.x) (a.mul s v.y) (a.mul s v.z)

  unfoldable pub divide : Point F → F → Point F
  divide v c = point (a.div v.x c) (a.div v.y c) (a.div v.z c)

  unfoldable pub shift : Point F → F → Point F
  shift v s = point (a.add v.x s) (a.add v.y s) (a.add v.z s)

  unfoldable pub cross : Point F → Point F → Point F
  cross v w =
      point (a.sub (a.mul v.y w.z) (a.mul v.z w.y)) (a.sub (a.mul v.z w.x) (a.mul v.x w.z))
        (a.sub (a.mul v.x w.y) (a.mul v.y w.x))

  -- `centre` of two points
  unfoldable pub midpoint : Point F → Point F → Point F
  midpoint p1 p2 = divide (plus p1 p2) (a.of_nat 2)

  unfoldable pub circle_radius : Box F → F
  circle_radius b =
      a.div
        (a.sqrt (
          a.add (a.add (a.pow2 (a.sub b.xu b.xl)) (a.pow2 (a.sub b.yu b.yl)))
            (a.pow2 (a.sub b.zu b.zl))))
        (a.of_nat 2)

  unfoldable pub widen : Box F → F → Box F
  widen bb v = record {
    xl = a.sub bb.xl v;
    xu = a.add bb.xu v;
    yl = a.sub bb.yl v;
    yu = a.add bb.yu v;
    zl = a.sub bb.zl v;
    zu = a.add bb.zu v;
  }

module _ {F : Type 0} ⦃d : Doubles F⦄ where
  -- std::min and std::max
  unfoldable pub fmin : F → F → F
  fmin u v = if d.lt v u then v else u

  unfoldable pub fmax : F → F → F
  fmax u v = if d.lt u v then v else u

  unfoldable pub point_eq : Point F → Point F → Bool
  point_eq v w = d.eq v.x w.x && (d.eq v.y w.y && d.eq v.z w.z)

  unfoldable pub hull : Point F → Point F → Box F
  hull p1 p2 = record {
    xl = fmin p1.x p2.x;
    xu = fmax p1.x p2.x;
    yl = fmin p1.y p2.y;
    yu = fmax p1.y p2.y;
    zl = fmin p1.z p2.z;
    zu = fmax p1.z p2.z;
  }

  unfoldable pub is_empty : Box F → Bool
  is_empty b = d.lt b.xu b.xl || (d.lt b.yu b.yl || d.lt b.zu b.zl)

  unfoldable pub disjoint : Box F → Box F → Bool
  disjoint b other =
      d.lt b.xu other.xl
      || (d.lt other.xu b.xl
          || (d.lt b.yu other.yl
              || (d.lt other.yu b.yl || (d.lt b.zu other.zl || d.lt other.zu b.zl))))

module _ {F : Type 0} ⦃d : Doubles F⦄ ⦃a : Arithmetic F⦄ where
  unfoldable pub make_empty : Box F
  make_empty = record {
    xl = d.infinity;
    xu = a.neg d.infinity;
    yl = d.infinity;
    yu = a.neg d.infinity;
    zl = d.infinity;
    zu = a.neg d.infinity;
  }

  -- `Box::centre`
  unfoldable pub centre_of : Box F → Result (Point F)
  centre_of b = do
    require (not (is_empty b))
    ok (
        point (a.div (a.add b.xl b.xu) (a.of_nat 2)) (a.div (a.add b.yl b.yu) (a.of_nat 2))
          (a.div (a.add b.zl b.zu) (a.of_nat 2)))
