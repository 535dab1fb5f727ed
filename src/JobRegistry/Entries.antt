-- ===== src/JobRegistry/Entries.antt =====
-- The whole job registry: what each timestamp and identifier has registered.
use opera.Prelude.{
  ℕ, ◌≤◌, ◌<◌, ◌≡◌, refl, ◌∙◌, inl, inr, ◌↔◌, List, [], ◌∷◌, Option, none, some, Bool, true, false,
  ◌&&◌, ◌||◌, ◌==◌, if◌then◌else◌, Bool-cases, ok, arith, take, Option-cases, All,
}
use opera.Prelude.Texts.{text_eq}
use opera.JobPath.{LookAheadJobPath}
use opera.JobIdentifier.{LookAheadJobIdentifier, id_eq}
use opera.JobIdentifier.Order.{id_lt-id_eq}
use opera.JobRegistry.{
  TreeNode, new_tree, find_tree, put_tree, tree_of, same_key, RegistryEntry, Registry,
  entry_try_register, entry_has_registered, last_at, has_registered, find_child,
}
use opera.JobRegistry.Words.{member, word}
use opera.JobRegistry.Taken.{has_registered_path-member, try_register_path-member}

same_key-id_eq : (a b : LookAheadJobIdentifier) → same_key a b ≡ id_eq a b
same_key-id_eq a b = (id_lt-id_eq a b).0

tree_of-put :
    (id k : LookAheadJobIdentifier) (t : TreeNode)
    (trees : List (LookAheadJobIdentifier × TreeNode))
    → tree_of k (put_tree id t trees) ≡ (if id_eq id k then t else tree_of k trees)
unfolding tree_of find_tree put_tree
tree_of-put id k t [] = ground (arith, same_key-id_eq id k)
tree_of-put id k t ((j, u) ∷ trees) = ground (
  arith,
  tree_of-put id k t trees,
  same_key-id_eq j id,
  same_key-id_eq j k,
  id_lt-id_eq j id,
  id_lt-id_eq j k,
  id_lt-id_eq id k,
)

pub member-new_tree : (w : List ℕ) → member w new_tree ≡ false
unfolding member new_tree find_child
member-new_tree [] = refl
member-new_tree (k ∷ w) = refl

entry_has_registered-member :
    (e : RegistryEntry) (id : LookAheadJobIdentifier) (p : LookAheadJobPath)
    → entry_has_registered e id p ≡ ok (member (word p.path) (tree_of id e.id_trees))
unfolding tree_of entry_has_registered
entry_has_registered-member e id p = elim (Option-cases (find_tree id e.id_trees)) [
  | inl h ↦ ground (arith, h, member-new_tree (word p.path))
  | inr (t, h) ↦ ground (arith, h, has_registered_path-member t p)
]

pub entry_try_register-member :
    (e : RegistryEntry) (id : LookAheadJobIdentifier) (p : LookAheadJobPath)
    → (accepted : Bool) × (e' : RegistryEntry) × (entry_try_register e id p ≡ ok (accepted, e'))
      × (e'.timestamp ≡ e.timestamp)
      × ((accepted ≡ true)
          ↔ ((n : ℕ) → member (take n (word p.path)) (tree_of id e.id_trees) ≡ false))
      × ((k : LookAheadJobIdentifier) (v : List ℕ)
          → member v (tree_of k e'.id_trees) ≡ (
              member v (tree_of k e.id_trees)
              || (accepted && (id_eq id k && text_eq v (word p.path)))))
unfolding entry_try_register
entry_try_register-member e id p =
    let (accepted, t, f, exact, keeps) = try_register_path-member (tree_of id e.id_trees) p in
    (
      accepted,
      record e { id_trees = put_tree id t e.id_trees },
      rw f,
      refl,
      exact,
      λ k v. ground (arith, tree_of-put id k t e.id_trees, keeps v, id_lt-id_eq id k),
    )

-- The entry of that timestamp.
unfoldable pub entry_at : ℕ → Registry → Option RegistryEntry
entry_at timestamp [] = none
entry_at timestamp (e ∷ es) = if e.timestamp == timestamp then some e else entry_at timestamp es

unfoldable pub tree_in : LookAheadJobIdentifier → Option RegistryEntry → TreeNode
tree_in id none = new_tree
tree_in id (some e) = tree_of id e.id_trees

-- Whether the word is registered for that timestamp and identifier.
unfoldable pub registered : Registry → ℕ → LookAheadJobIdentifier → List ℕ → Bool
registered es timestamp id w = member w (tree_in id (entry_at timestamp es))

-- The entries come in the order of their timestamps, each at most once.
abbrev pub IsChronological : Registry → Type 0
IsChronological [] = Unit
IsChronological (e ∷ es) = All (λ f. e.timestamp < f.timestamp) es × IsChronological es

pub entry_at-later :
    (timestamp : ℕ) (low : ℕ) (es : Registry)
    → All (λ f. low < f.timestamp) es
    → timestamp ≤ low
    → entry_at timestamp es ≡ none
unfolding entry_at
entry_at-later timestamp low [] h k = refl
entry_at-later timestamp low (e ∷ es) h k = ground (arith, entry_at-later timestamp low es h.1 k)

last_at-entry_at :
    (timestamp : ℕ) (es : Registry) (found : Option RegistryEntry)
    → IsChronological es
    → last_at es timestamp found ≡ elim (entry_at timestamp es) [ none ↦ found | some e ↦ some e ]
unfolding last_at entry_at
last_at-entry_at timestamp [] found h = refl
last_at-entry_at timestamp (e ∷ es) found h = elim (Bool-cases (e.timestamp == timestamp)) [
  | inl same ↦
      let later : entry_at timestamp es ≡ none =
        entry_at-later timestamp e.timestamp es h.0 (ground arith) in
      rw same (last_at-entry_at timestamp es (some e) h.1 ∙ rw later)
  | inr other ↦ rw other (last_at-entry_at timestamp es found h.1)
]

-- `has_registered` returns on every registry in chronological order, and says whether the path's
-- word is registered for the timestamp and the identifier.
pub has_registered-registered :
    (es : Registry) (timestamp : ℕ) (id : LookAheadJobIdentifier) (p : LookAheadJobPath)
    → IsChronological es
    → has_registered es timestamp id p ≡ ok (registered es timestamp id (word p.path))
unfolding has_registered registered tree_in
has_registered-registered es timestamp id p h = elim (Option-cases (entry_at timestamp es)) [
  | inl e ↦
      let l : last_at es timestamp none ≡ none = last_at-entry_at timestamp es none h ∙ rw e in
      rw (l, has_registered, e, member-new_tree (word p.path))
  | inr (x, e) ↦
      let l : last_at es timestamp none ≡ some x = last_at-entry_at timestamp es none h ∙ rw e in
      rw (l, has_registered, e) (entry_has_registered-member x id p)
]
