-- ===== src/JobRegistry/Taken.antt =====
-- Which paths a tree of the job registry takes.
use opera.Prelude.{
  ℕ, ◌≡◌, refl, sym, ap, ◌∙◌, inl, inr, ◌↔◌, List, [], ◌∷◌, ◌++◌, Bool, true, false, ◌&&◌, ◌||◌,
  Bool-cases, ok, arith, length, take, ok_pair,
}
use opera.Prelude.Texts.{text_eq, text_eq_refl}
use opera.JobPath.{LookAheadJobPath, size}
use opera.JobRegistry.{TreeNode, try_register_path, has_registered_path}
use opera.JobRegistry.Words.{
  member, word, has_registered_below-member, register, try_register_below-register, member-register,
  register-accepts, register-refuses,
}

-- `has_registered` returns on every path, and says whether the path's word of priorities is
-- registered; the positions do not matter.
pub has_registered_path-member :
    (t : TreeNode) (p : LookAheadJobPath) → has_registered_path t p ≡ ok (member (word p.path) t)
unfolding has_registered_path size
has_registered_path-member t p = has_registered_below-member [] p.path t

-- `try_register` returns on every path. It succeeds exactly if neither the path's word nor a prefix
-- of it is registered, adds the word if it succeeds, and leaves every other word as it was.
pub try_register_path-member :
    (t : TreeNode) (p : LookAheadJobPath)
    → (accepted : Bool) × (t' : TreeNode) × (try_register_path t p ≡ ok (accepted, t'))
      × ((accepted ≡ true) ↔ ((n : ℕ) → member (take n (word p.path)) t ≡ false))
      × ((v : List ℕ) → member v t' ≡ (member v t || (accepted && text_eq v (word p.path))))
unfolding try_register_path size
try_register_path-member t p = (
  (register (word p.path) t).0,
  (register (word p.path) t).1,
  try_register_below-register [] p.path t,
  (register-accepts (word p.path) t, accepts),
  λ v. member-register (word p.path) v t,
)
  where
    accepts :
        ((n : ℕ) → member (take n (word p.path)) t ≡ false) → (register (word p.path) t).0 ≡ true
    accepts none_registered = elim (Bool-cases (register (word p.path) t).0) [
      | inl e ↦ e
      | inr e ↦ let (n, f) = register-refuses (word p.path) t e in cc (none_registered n)
    ]

word-append : (es fs : List (ℕ × ℕ)) → take (length (word es)) (word (es ++ fs)) ≡ word es
word-append [] fs = refl
word-append ((p, x) ∷ es) fs = ap (◌∷◌ p) (word-append es fs)

try_register_path-registers :
    (t : TreeNode) (p : LookAheadJobPath) (t' : TreeNode)
    → try_register_path t p ≡ ok (true, t')
    → member (word p.path) t' ≡ true
try_register_path-registers t p t' h =
    let (accepted, u, e, _, keeps) = try_register_path-member t p in
    let (done, same) = ok_pair accepted true u t' (sym e ∙ h) in
    ground (arith, keeps (word p.path), text_eq_refl (word p.path))

-- A path that was taken is refused from then on, and so is every path that goes on from it; the
-- refused call changes no word.
pub try_register_path-once :
    (t : TreeNode) (p q : LookAheadJobPath) (rest : List (ℕ × ℕ)) (t' : TreeNode)
    → try_register_path t p ≡ ok (true, t')
    → q.path ≡ p.path ++ rest
    → (t'' : TreeNode) × (try_register_path t' q ≡ ok (false, t''))
      × ((v : List ℕ) → member v t'' ≡ member v t')
try_register_path-once t p q rest t' h e =
    let (accepted, t'', f, exact, keeps) = try_register_path-member t' q in
    let taken : member (take (length (word p.path)) (word q.path)) t' ≡ true =
      rw (e, word-append p.path rest) (try_register_path-registers t p t' h) in
    let refused : accepted ≡ false = elim (Bool-cases accepted) [
      | inl yes_ ↦ cc (exact.0 yes_ (length (word p.path)))
      | inr no_ ↦ no_
    ] in
    (t'', f ∙ ap (λ (b : Bool). ok (b, t'')) refused, λ v. ground (arith, keeps v))
