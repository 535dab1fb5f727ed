-- ===== src/Section/Descending.antt =====
-- The descending order of a section's distances, kept by a barrier at its end.
use opera.Prelude.{◌≡◌, List, [], ◌∷◌, ◌++◌, true, ok, back, set_back, All}
use opera.Prelude.Doubles.{Doubles, IsOrdered}
use opera.Barrier.{MinimumDistanceBarrier}
use opera.Section.Search.{IsDescending}

module _ {F : Type 0} ⦃d : Doubles F⦄ (o : IsOrdered d) where
  -- A barrier that is not above the last one keeps the order, and so does a last one replaced at
  -- the same distance.
  All-le-append :
      (bs : List (MinimumDistanceBarrier F)) (l b : MinimumDistanceBarrier F) (m : F)
      → All (λ c. d.le c.minimum_distance m ≡ true) bs
      → back bs ≡ ok l
      → d.le b.minimum_distance l.minimum_distance ≡ true
      → All (λ c. d.le c.minimum_distance m ≡ true) (bs ++ b ∷ [])
  All-le-append [] l b m h e k = absurd (cc)
  All-le-append (x ∷ []) l b m h e k = (
    h.0,
    (o.le_trans b.minimum_distance l.minimum_distance m k (let p : x ≡ l = cc in rw (← p) h.0), tt),
  )
  All-le-append (x ∷ y ∷ bs) l b m h e k = (h.0, All-le-append (y ∷ bs) l b m h.1 e k)

  pub IsDescending-append :
      (bs : List (MinimumDistanceBarrier F)) (l b : MinimumDistanceBarrier F)
      → IsDescending bs
      → back bs ≡ ok l
      → d.le b.minimum_distance l.minimum_distance ≡ true
      → IsDescending (bs ++ b ∷ [])
  IsDescending-append [] l b h e k = absurd (cc)
  IsDescending-append (x ∷ []) l b h e k = ((let p : x ≡ l = cc in rw p k, tt), (tt, tt))
  IsDescending-append (x ∷ y ∷ bs) l b h e k = (
    All-le-append (y ∷ bs) l b x.minimum_distance h.0 e k,
    IsDescending-append (y ∷ bs) l b h.1 e k,
  )

  All-le-set_back :
      (bs : List (MinimumDistanceBarrier F)) (l b : MinimumDistanceBarrier F) (m : F)
      → All (λ c. d.le c.minimum_distance m ≡ true) bs
      → back bs ≡ ok l
      → b.minimum_distance ≡ l.minimum_distance
      → All (λ c. d.le c.minimum_distance m ≡ true) (set_back bs b)
  All-le-set_back [] l b m h e k = absurd (cc)
  All-le-set_back (x ∷ []) l b m h e k = (let p : x ≡ l = cc in rw (k, ← p) h.0, tt)
  All-le-set_back (x ∷ y ∷ bs) l b m h e k = (h.0, All-le-set_back (y ∷ bs) l b m h.1 e k)

  pub IsDescending-set_back :
      (bs : List (MinimumDistanceBarrier F)) (l b : MinimumDistanceBarrier F)
      → IsDescending bs
      → back bs ≡ ok l
      → b.minimum_distance ≡ l.minimum_distance
      → IsDescending (set_back bs b)
  IsDescending-set_back [] l b h e k = absurd (cc)
  IsDescending-set_back (x ∷ []) l b h e k = (tt, tt)
  IsDescending-set_back (x ∷ y ∷ bs) l b h e k = (
    All-le-set_back (y ∷ bs) l b x.minimum_distance h.0 e k,
    IsDescending-set_back (y ∷ bs) l b h.1 e k,
  )
