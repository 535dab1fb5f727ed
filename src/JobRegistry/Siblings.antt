-- ===== src/JobRegistry/Siblings.antt =====
-- The children of a node of the job registry, found, made and replaced by priority.
use opera.Prelude.{
  ℕ, ◌≡◌, ◌∙◌, inl, inr, Option, none, some, Bool, false, ◌==◌, if◌then◌else◌, Result, ok, arith,
  Option-cases, ==-self,
}
use opera.JobRegistry.{
  TreeNode, node, Children, nil, cons, node_priority, find_child, insert_child, emplace_child,
  at_child,
}

-- The node of that priority replaced.
pub put_child : ℕ → TreeNode → Children → Children
put_child q t nil = nil
put_child q t (cons c cs) = if node_priority c == q then cons t cs else cons c (put_child q t cs)

unfoldable pub or_new : ℕ → Option TreeNode → TreeNode
or_new q none = node q false nil
or_new q (some c) = c

abbrev pub child : ℕ → Children → TreeNode
child q cs = or_new q (find_child q cs)

pub node_priority-find :
    (q : ℕ) (cs : Children) (c : TreeNode) → find_child q cs ≡ some c → node_priority c ≡ q
unfolding find_child
node_priority-find q nil c e = absurd (cc)
node_priority-find q (cons d cs) c e = ground (arith, node_priority-find q cs c)

find-insert :
    (k q : ℕ) (cs : Children)
    → find_child q cs ≡ none
    → find_child k (insert_child q cs)
      ≡ (if q == k then some (node q false nil) else find_child k cs)
unfolding find_child insert_child node_priority
find-insert k q nil e = ground arith
find-insert k q (cons d cs) e = ground (arith, find-insert k q cs)

emplace-none :
    (q : ℕ) (cs : Children) → find_child q cs ≡ none → emplace_child q cs ≡ insert_child q cs
unfolding emplace_child
emplace-none q cs e = rw (e, emplace_child)

emplace-some :
    (q : ℕ) (cs : Children) (c : TreeNode) → find_child q cs ≡ some c → emplace_child q cs ≡ cs
unfolding emplace_child
emplace-some q cs c e = rw (e, emplace_child)

pub find-emplace : (q : ℕ) (cs : Children) → find_child q (emplace_child q cs) ≡ some (child q cs)
unfolding or_new
find-emplace q cs = elim (Option-cases (find_child q cs)) [
  | inl e ↦ rw (emplace-none q cs e, find-insert q q cs e, ==-self q, e)
  | inr (c, e) ↦ rw (emplace-some q cs c e, e)
]

pub find-put :
    (k q : ℕ) (t : TreeNode) (cs : Children) (c : TreeNode)
    → node_priority t ≡ q
    → find_child q cs ≡ some c
    → find_child k (put_child q t cs) ≡ (if q == k then some t else find_child k cs)
unfolding find_child put_child
find-put k q t nil c h e = absurd (cc)
find-put k q t (cons d cs) c h e = ground (arith, find-put k q t cs c)

pub find-put-emplace :
    (k q : ℕ) (t : TreeNode) (cs : Children)
    → node_priority t ≡ q
    → find_child k (put_child q t (emplace_child q cs))
      ≡ (if q == k then some t else find_child k cs)
find-put-emplace k q t cs h = elim (Option-cases (find_child q cs)) [
  | inl e ↦ rw (emplace-none q cs e) (
      find-put k q t (insert_child q cs) (node q false nil) h
        (find-insert q q cs e ∙ rw (==-self q))
      ∙ ground (arith, find-insert k q cs e))
  | inr (c, e) ↦ rw (emplace-some q cs c e) (find-put k q t cs c h e)
]

pub at_child-put :
    (f : TreeNode → Result (Bool × TreeNode)) (q : ℕ) (cs : Children) (c t : TreeNode) (b : Bool)
    → find_child q cs ≡ some c
    → f c ≡ ok (b, t)
    → at_child f q cs ≡ ok (b, put_child q t cs)
unfolding at_child find_child put_child
at_child-put f q nil c t b e h = absurd (cc)
at_child-put f q (cons d cs) c t b e h = ground (arith, at_child-put f q cs c t b)
