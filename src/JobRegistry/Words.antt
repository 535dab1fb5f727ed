-- ===== src/JobRegistry/Words.antt =====
-- A tree of the job registry as the set of the words of priorities that it has registered.
use opera.Prelude.{
  ℕ, zero, suc, ◌+◌, ◌-◌, ◌≡◌, refl, sym, ap, ◌∙◌, inl, inr, List, [], ◌∷◌, ◌++◌, Option, none,
  some, Bool, true, false, ◌&&◌, ◌||◌, ◌==◌, if◌then◌else◌, Bool-cases, Result, ok, arith, length,
  length-append, take, at, lt→ltb, Option-cases,
}
use opera.Prelude.Texts.{text_eq}
use opera.JobPath.{LookAheadJobPath, priority, size}
use opera.JobRegistry.{
  TreeNode, node, Children, nil, node_priority, find_child, emplace_child, has_registered_below,
  try_register_below,
}
use opera.JobRegistry.Siblings.{
  put_child, or_new, child, find-emplace, find-put-emplace, at_child-put, node_priority-find,
}
use mathlib.Core.List.{append_assoc}

-- Whether the word is registered.
unfoldable pub member : List ℕ → TreeNode → Bool
member [] (node p registered children) = registered
member (q ∷ w) (node p registered children) = elim (find_child q children) [
  | none ↦ false
  | some c ↦ member w c
]

-- The priorities that a path chooses.
abbrev pub word : List (ℕ × ℕ) → List ℕ
word [] = []
word ((p, position) ∷ es) = p ∷ word es

at-append :
    (pre : List (ℕ × ℕ)) (e : ℕ × ℕ) (es : List (ℕ × ℕ)) → at (pre ++ e ∷ es) (length pre) ≡ ok e
at-append [] e es = refl
at-append (x ∷ pre) e es = at-append pre e es

priority-append :
    (pre es : List (ℕ × ℕ)) (q x : ℕ)
    → let path : LookAheadJobPath = record { path = pre ++ (q, x) ∷ es } in
      priority path (size path - suc (length es)) ≡ ok q
unfolding priority size
priority-append pre es q x =
    let n : length (pre ++ (q, x) ∷ es) ≡ length pre + suc (length es) =
      length-append pre ((q, x) ∷ es) in
    let i : length (pre ++ (q, x) ∷ es) - suc (length es) ≡ length pre = omega arith in
    rw (i, lt→ltb (length pre) (length (pre ++ (q, x) ∷ es)) (omega arith), at-append pre (q, x) es)

pub has_registered_below-member :
    (pre es : List (ℕ × ℕ)) (t : TreeNode)
    → has_registered_below (length es) (record { path = pre ++ es }) t ≡ ok (member (word es) t)
unfolding has_registered_below member
has_registered_below-member pre [] (node p r cs) = refl
has_registered_below-member pre ((q, x) ∷ es) (node p r cs) =
    rw (priority-append pre es q x)
      (found (has_registered_below-member (pre ++ (q, x) ∷ []) es) (find_child q cs))
  where
    found :
        ((t : TreeNode)
          → has_registered_below (length es) (record { path = (pre ++ (q, x) ∷ []) ++ es }) t
            ≡ ok (member (word es) t))
        → (o : Option TreeNode)
        → elim o as (λ _. Result Bool) [
          | none ↦ ok false
          | some child ↦
              has_registered_below (length es) (record { path = pre ++ (q, x) ∷ es }) child
        ]
          ≡ ok (elim o as (λ _. Bool) [ none ↦ false | some c ↦ member (word es) c ])
    found step none = refl
    found step (some c) =
        ap (λ l. has_registered_below (length es) (record { path = l }) c)
          (sym (append_assoc pre ((q, x) ∷ []) es))
        ∙ step c

-- `try_register` on the word that is left, the child looked up or made.
pub register : List ℕ → TreeNode → Bool × TreeNode
register [] (node p r cs) = if r then (false, node p r cs) else (true, node p true cs)
register (q ∷ w) (node p r cs) =
    let below = register w (child q cs) in
    if r
    then (false, node p r cs)
    else (below.0, node p r (put_child q below.1 (emplace_child q cs)))

node_priority-register :
    (w : List ℕ) (t : TreeNode) → node_priority (register w t).1 ≡ node_priority t
unfolding register node_priority
node_priority-register [] (node p r cs) = ground arith
node_priority-register (q ∷ w) (node p r cs) = ground arith

pub try_register_below-register :
    (pre es : List (ℕ × ℕ)) (t : TreeNode)
    → try_register_below (length es) (record { path = pre ++ es }) t ≡ ok (register (word es) t)
unfolding try_register_below register
try_register_below-register pre [] (node p r cs) = ground arith
try_register_below-register pre ((q, x) ∷ es) (node p true cs) = refl
try_register_below-register pre ((q, x) ∷ es) (node p false cs) = rw (
  priority-append pre es q x,
  at_child-put (try_register_below (length es) (record { path = pre ++ (q, x) ∷ es })) q
      (emplace_child q cs) (child q cs) (register (word es) (child q cs)).1
      (register (word es) (child q cs)).0 (find-emplace q cs)
      (ap (λ l. try_register_below (length es) (record { path = l }) (child q cs))
          (sym (append_assoc pre ((q, x) ∷ []) es))
        ∙ try_register_below-register (pre ++ (q, x) ∷ []) es (child q cs)),
)

member-new : (w : List ℕ) (q : ℕ) → member w (node q false nil) ≡ false
unfolding member find_child
member-new [] q = refl
member-new (k ∷ w) q = refl

member-child :
    (k : ℕ) (w : List ℕ) (p : ℕ) (r : Bool) (cs : Children)
    → member (k ∷ w) (node p r cs) ≡ member w (child k cs)
unfolding member or_new
member-child k w p r cs = elim (Option-cases (find_child k cs)) [
  | inl e ↦ rw (e, member) (sym (member-new w k))
  | inr (c, e) ↦ rw (e, member)
]

child-put :
    (k q : ℕ) (t : TreeNode) (cs : Children)
    → node_priority t ≡ q
    → child k (put_child q t (emplace_child q cs)) ≡ (if q == k then t else child k cs)
unfolding or_new
child-put k q t cs h = elim (Bool-cases (q == k)) [
  | inl e ↦ rw (find-put-emplace k q t cs h, e)
  | inr e ↦ rw (find-put-emplace k q t cs h, e)
]

node_priority-child : (q : ℕ) (cs : Children) → node_priority (child q cs) ≡ q
unfolding or_new node_priority
node_priority-child q cs = elim (Option-cases (find_child q cs)) [
  | inl e ↦ rw e
  | inr (c, e) ↦ rw e (node_priority-find q cs c e)
]

pub member-register :
    (w v : List ℕ) (t : TreeNode)
    → member v (register w t).1 ≡ (member v t || ((register w t).0 && text_eq v w))
unfolding register text_eq member
member-register [] [] (node p true cs) = refl
member-register [] [] (node p false cs) = refl
member-register [] (k ∷ v) (node p true cs) = ground arith
member-register [] (k ∷ v) (node p false cs) =
    ground (arith, member-child k v p true cs, member-child k v p false cs)
member-register (q ∷ w) v (node p true cs) = ground arith
member-register (q ∷ w) [] (node p false cs) = ground arith
member-register (q ∷ w) (k ∷ v) (node p false cs) =
    let t : TreeNode = (register w (child q cs)).1 in
    let same : node_priority t ≡ q =
      node_priority-register w (child q cs) ∙ node_priority-child q cs in
    ground (
      arith,
      member-child k v p false (put_child q t (emplace_child q cs)),
      member-child k v p false cs,
      child-put k q t cs same,
      member-register w v (child q cs),
    )

pub register-accepts :
    (w : List ℕ) (t : TreeNode) → (register w t).0 ≡ true → (n : ℕ) → member (take n w) t ≡ false
unfolding register member
register-accepts [] (node p true cs) h n = cc
register-accepts [] (node p false cs) h zero = refl
register-accepts [] (node p false cs) h (suc n) = refl
register-accepts (q ∷ w) (node p true cs) h n = cc
register-accepts (q ∷ w) (node p false cs) h zero = refl
register-accepts (q ∷ w) (node p false cs) h (suc n) =
    member-child q (take n w) p false cs ∙ register-accepts w (child q cs) h n

pub register-refuses :
    (w : List ℕ) (t : TreeNode) → (register w t).0 ≡ false → (n : ℕ) × (member (take n w) t ≡ true)
unfolding register member
register-refuses [] (node p true cs) h = (0, refl)
register-refuses [] (node p false cs) h = cc
register-refuses (q ∷ w) (node p true cs) h = (0, refl)
register-refuses (q ∷ w) (node p false cs) h =
    let (n, e) = register-refuses w (child q cs) h in
    (suc n, member-child q (take n w) p false cs ∙ e)
