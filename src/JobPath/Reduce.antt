-- ===== src/JobPath/Reduce.antt =====
-- What the operations of src/lookahead_job.cpp keep of a path.
use opera.Prelude.{
  ℕ, zero, suc, ◌-◌, ◌≤◌, ◌<◌, ◌≡◌, refl, ap, ◌∙◌, List, [], ◌∷◌, ◌++◌, true, false, ltb, leb,
  if◌then◌else◌, ok, err, precondition, assertion, ltb-false, arith, length, at, back, drop_last,
  length-drop_last, ltb→lt, lt→ltb, sym, inl, inr, Bool-cases, back-ok, ltb-false→le,
}
use opera.JobPath.{
  LookAheadJobPath, empty, extends, add, remove_le_loop, remove_le_than, remove_g_loop,
  remove_g_than, reduce_between,
}
use mathlib.Core.List.{append-nil, append_assoc}

-- Every position lies beyond the given one, and beyond the positions before it.
abbrev pub IsIncreasing : ℕ → List (ℕ × ℕ) → Type 0
IsIncreasing low [] = Unit
IsIncreasing low ((p, position) ∷ es) = (low < position) × IsIncreasing position es

-- The entries of a path come in the order of their positions, which are positive.
abbrev pub IsValid : LookAheadJobPath → Type 0
IsValid p = IsIncreasing 0 p.path

-- The entries past the lower position, counted from there on.
abbrev pub shifted : ℕ → List (ℕ × ℕ) → List (ℕ × ℕ)
shifted lower [] = []
shifted lower ((p, position) ∷ es) =
    if ltb lower position then (p, position - lower) ∷ shifted lower es else shifted lower es

-- The entries up to the upper position.
abbrev pub up_to : ℕ → List (ℕ × ℕ) → List (ℕ × ℕ)
up_to upper [] = []
up_to upper ((p, position) ∷ es) =
    if leb position upper then (p, position) ∷ up_to upper es else up_to upper es

-- The position of the last entry.
abbrev pub last_position : ℕ → List (ℕ × ℕ) → ℕ
last_position low [] = low
last_position low ((p, position) ∷ es) = last_position position es

last_position-at :
    (low : ℕ) (e : ℕ × ℕ) (es : List (ℕ × ℕ))
    → (x : ℕ × ℕ) × (at (e ∷ es) (length es) ≡ ok x) × (x.1 ≡ last_position low (e ∷ es))
last_position-at low (p, q) [] = ((p, q), refl, refl)
last_position-at low (p, q) (e ∷ es) = last_position-at q e es

extends-last :
    (es : List (ℕ × ℕ)) (position : ℕ)
    → last_position 0 es < position
    → extends (record { path = es }) position ≡ ok true
unfolding extends
extends-last [] position h = refl
extends-last (e ∷ es) position h =
    let (x, f, g) = last_position-at 0 e es in
    let i : length (e ∷ es) - 1 ≡ length es = omega arith in
    ground (arith, i, f, lt→ltb x.1 position (omega (arith, g)))

add-ok :
    (es : List (ℕ × ℕ)) (p position : ℕ)
    → last_position 0 es < position
    → add (record { path = es }) p position ≡ ok (record { path = es ++ (p, position) ∷ [] })
unfolding add
add-ok es p position h = rw (lt→ltb 0 position (omega arith), extends-last es position h)

last_position-append :
    (low : ℕ) (es : List (ℕ × ℕ)) (p position : ℕ)
    → last_position low (es ++ (p, position) ∷ []) ≡ position
last_position-append low [] p position = refl
last_position-append low ((q, x) ∷ es) p position = last_position-append x es p position

-- The bound on the new path's last position, relative to the entries still to come.
remove_le_loop-shifted :
    (es new : List (ℕ × ℕ)) (lower low : ℕ)
    → IsIncreasing low es
    → last_position 0 new ≤ low - lower
    → remove_le_loop es lower (record { path = new })
      ≡ ok (record { path = new ++ shifted lower es })
unfolding remove_le_loop
remove_le_loop-shifted [] new lower low h k =
    ap (λ xs. ok (record { path = xs })) (sym (append-nil new))
remove_le_loop-shifted ((p, position) ∷ es) new lower low h k =
    elim (Bool-cases (ltb lower position)) [
      | inl past ↦
          rw (past, add-ok new p (position - lower) (omega (arith, ltb→lt lower position past)))
            (remove_le_loop-shifted es (new ++ (p, position - lower) ∷ []) lower position h.1
                (omega (arith, last_position-append 0 new p (position - lower)))
              ∙ ap (λ xs. ok (record { path = xs }))
                  (append_assoc new ((p, position - lower) ∷ []) (shifted lower es)))
      | inr below ↦ rw below (remove_le_loop-shifted es new lower position h.1 (omega arith))
    ]

up_to-drop_last :
    (upper : ℕ) (es : List (ℕ × ℕ)) (e : ℕ × ℕ)
    → back es ≡ ok e
    → upper < e.1
    → up_to upper (drop_last es) ≡ up_to upper es
up_to-drop_last upper [] e h k = refl
up_to-drop_last upper ((p, q) ∷ []) e h k =
    let f : (p, q) ≡ e = cc in ground (arith, ap (λ (x : ℕ × ℕ). x.1) f)
up_to-drop_last upper ((p, q) ∷ y ∷ es) e h k = ground (arith, up_to-drop_last upper (y ∷ es) e h k)

up_to-all :
    (upper low : ℕ) (es : List (ℕ × ℕ)) (e : ℕ × ℕ)
    → IsIncreasing low es
    → back es ≡ ok e
    → e.1 ≤ upper
    → (up_to upper es ≡ es) × (low < upper)
up_to-all upper low [] e v h k = absurd (cc)
up_to-all upper low ((p, q) ∷ []) e v h k =
    let f : ◌≡◌ {A = ℕ × ℕ} (p, q) e = cc in ground (arith, ap (λ (x : ℕ × ℕ). x.1) f)
up_to-all upper low ((p, q) ∷ y ∷ es) e v h k = ground (arith, up_to-all upper q (y ∷ es) e v.1 h k)

IsIncreasing-drop_last :
    (low : ℕ) (es : List (ℕ × ℕ)) → IsIncreasing low es → IsIncreasing low (drop_last es)
IsIncreasing-drop_last low [] v = tt
IsIncreasing-drop_last low ((p, q) ∷ []) v = tt
IsIncreasing-drop_last low ((p, q) ∷ y ∷ es) v = (v.0, IsIncreasing-drop_last q (y ∷ es) v.1)

remove_g_loop-up_to :
    (fuel upper : ℕ) (es : List (ℕ × ℕ))
    → length es < fuel
    → IsIncreasing 0 es
    → remove_g_loop fuel es upper ≡ ok (up_to upper es)
unfolding remove_g_loop
remove_g_loop-up_to zero upper es h v = absurd (omega arith)
remove_g_loop-up_to (suc fuel) upper [] h v = refl
remove_g_loop-up_to (suc fuel) upper (x ∷ es) h v =
    let (e, f) = back-ok (x ∷ es) (omega arith) in
    elim (Bool-cases (ltb upper e.1)) [
      | inl past ↦
          rw (f, past)
            (remove_g_loop-up_to fuel upper (drop_last (x ∷ es))
                (omega (arith, length-drop_last (x ∷ es))) (IsIncreasing-drop_last 0 (x ∷ es) v)
              ∙ ap ok (up_to-drop_last upper (x ∷ es) e f (ltb→lt upper e.1 past)))
      | inr within ↦
          rw (f, within)
            (ap ok (sym ((up_to-all upper 0 (x ∷ es) e v f (ltb-false→le upper e.1 within)).0)))
    ]

IsIncreasing-up_to :
    (upper low low' : ℕ) (es : List (ℕ × ℕ))
    → low' ≤ low
    → IsIncreasing low es
    → IsIncreasing low' (up_to upper es)
IsIncreasing-up_to upper low low' [] h v = tt
IsIncreasing-up_to upper low low' ((p, q) ∷ es) h v = elim (Bool-cases (leb q upper)) [
  | inl e ↦ rw e (omega arith, IsIncreasing-up_to upper q q es (omega arith) v.1)
  | inr e ↦ rw e (IsIncreasing-up_to upper q low' es (omega arith) v.1)
]

IsIncreasing-shifted :
    (lower low low' : ℕ) (es : List (ℕ × ℕ))
    → low' ≤ low - lower
    → IsIncreasing low es
    → IsIncreasing low' (shifted lower es)
IsIncreasing-shifted lower low low' [] h v = tt
IsIncreasing-shifted lower low low' ((p, q) ∷ es) h v = elim (Bool-cases (ltb lower q)) [
  | inl e ↦ rw e (
    omega (arith, ltb→lt lower q e),
    IsIncreasing-shifted lower q (q - lower) es (omega arith) v.1,
  )
  | inr e ↦ rw e (IsIncreasing-shifted lower q low' es (omega arith) v.1)
]

-- On a valid path `reduce_between` returns, and its path is valid and holds exactly the entries
-- with a position past the lower bound and up to the upper one, in order, with the lower bound
-- taken off their positions.
pub reduce_between-shifted :
    (p : LookAheadJobPath) (lower upper : ℕ)
    → IsValid p
    → (reduce_between p lower upper ≡ ok (record { path = shifted lower (up_to upper p.path) }))
      × IsValid (record { path = shifted lower (up_to upper p.path) })
unfolding reduce_between remove_g_than remove_le_than empty
reduce_between-shifted p lower upper v =
    let v' : IsIncreasing 0 (up_to upper p.path) =
      IsIncreasing-up_to upper 0 0 p.path (omega arith) v in
    (
      rw (remove_g_loop-up_to (suc (length p.path)) upper p.path (omega arith) v)
          (remove_le_loop-shifted (up_to upper p.path) [] lower 0 v' (omega arith)),
      IsIncreasing-shifted lower 0 0 (up_to upper p.path) (omega arith) v',
    )

IsIncreasing-append :
    (low : ℕ) (es : List (ℕ × ℕ)) (p position : ℕ)
    → IsIncreasing low es
    → last_position low es < position
    → IsIncreasing low (es ++ (p, position) ∷ [])
IsIncreasing-append low [] p position v h = (h, tt)
IsIncreasing-append low ((q, x) ∷ es) p position v h =
    (v.0, IsIncreasing-append x es p position v.1 h)

extends-not :
    (es : List (ℕ × ℕ)) (position : ℕ)
    → 0 < position
    → position ≤ last_position 0 es
    → extends (record { path = es }) position ≡ ok false
unfolding extends
extends-not [] position h k = absurd (omega arith)
extends-not (e ∷ es) position h k =
    let (x, f, g) = last_position-at 0 e es in
    let i : length (e ∷ es) - 1 ≡ length es = omega arith in
    let n : ltb x.1 position ≡ false = ltb-false x.1 position (omega (arith, g)) in
    ground (arith, i, f, n)

-- `add` on a valid path: a position past the last one (0 for an empty path) is taken, and the new
-- path is valid and ends with the entry; position 0 fails the precondition; any other fails the
-- assertion.
pub add-IsValid :
    (p : LookAheadJobPath) (priority position : ℕ)
    → IsValid p
    → (last_position 0 p.path < position
        → (add p priority position ≡ ok (record { path = p.path ++ (priority, position) ∷ [] }))
          × IsValid (record { path = p.path ++ (priority, position) ∷ [] }))
      × (position ≡ 0 → add p priority position ≡ err precondition)
      × (0 < position → position ≤ last_position 0 p.path → add p priority position ≡ err assertion)
unfolding add
add-IsValid p priority position v = (
  λ h. (add-ok p.path priority position h, IsIncreasing-append 0 p.path priority position v h),
  λ h. rw h refl,
  λ h k. rw (lt→ltb 0 position h, extends-not p.path position h k) refl,
)
