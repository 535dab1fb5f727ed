-- ===== src/JobRegistry.antt =====
-- src/lookahead_job_registry.cpp: which job paths have been taken, for each timestamp and job
-- identifier. The mutexes make each call one step.
pub mod Siblings
pub mod Words
pub mod Taken
pub mod Entries
pub mod Registering
mod Tests
use opera.Prelude.{
  ℕ, zero, suc, ◌+◌, ◌-◌, List, [], ◌∷◌, ◌++◌, Option, none, some, Bool, true, false, not, ◌&&◌,
  ◌||◌, ltb, ◌==◌, if◌then◌else◌, Result, ok, err, undefined, assert, ◌>>=◌, ◌>>◌, length, back,
}
use opera.JobPath.{LookAheadJobPath, priority, size}
use opera.JobIdentifier.{LookAheadJobIdentifier, id_lt}

mutual
  -- LookAheadJobTreeNode: its priority, whether it is registered, and its children.
  pub data TreeNode : Type 0 where
    node : ℕ → Bool → Children → TreeNode

  -- The set of the children, ordered by priority.
  pub data Children : Type 0 where
    nil : Children
    cons : TreeNode → Children → Children

unfoldable pub node_priority : TreeNode → ℕ
node_priority (node p registered children) = p

-- _children.find(priority)
unfoldable pub find_child : ℕ → Children → Option TreeNode
find_child p nil = none
find_child p (cons c cs) = if node_priority c == p then some c else find_child p cs

-- A new child at its place in the order.
unfoldable pub insert_child : ℕ → Children → Children
insert_child p nil = cons (node p false nil) nil
insert_child p (cons c cs) =
    if ltb p (node_priority c)
    then cons (node p false nil) (cons c cs)
    else cons c (insert_child p cs)

-- _children.emplace(priority), where no child is found.
unfoldable pub emplace_child : ℕ → Children → Children
emplace_child p cs = elim (find_child p cs) [ none ↦ insert_child p cs | some c ↦ cs ]

-- A call on the child that the iterator is at; the end is not to be dereferenced.
unfoldable pub at_child :
    (TreeNode → Result (Bool × TreeNode)) → ℕ → Children → Result (Bool × Children)
at_child f p nil = err undefined
at_child f p (cons c cs) = elim (node_priority c == p) [
  | true ↦ f c >>= λ (r : Bool × TreeNode). ok (r.0, cons r.1 cs)
  | false ↦ at_child f p cs >>= λ (r : Bool × Children). ok (r.0, cons c r.1)
]

unfoldable pub has_registered_below : ℕ → LookAheadJobPath → TreeNode → Result Bool
has_registered_below zero path (node p registered children) = ok registered
has_registered_below (suc depth) path (node p registered children) =
    priority path (size path - suc depth) >>= λ q. elim (find_child q children) [
      | none ↦ ok false
      | some child ↦ has_registered_below depth path child
    ]

unfoldable pub try_register_below : ℕ → LookAheadJobPath → TreeNode → Result (Bool × TreeNode)
try_register_below zero path (node p registered children) =
    if registered then ok (false, node p registered children) else ok (true, node p true children)
try_register_below (suc depth) path (node p registered children) =
    if registered
    then ok (false, node p registered children)
    else (priority path (size path - suc depth) >>= λ q.
        at_child (try_register_below depth path) q (emplace_child q children)
        >>= λ (r : Bool × Children). ok (r.0, node p registered r.1))

-- LookAheadJobIdTree
unfoldable pub new_tree : TreeNode
new_tree = node 0 false nil

unfoldable pub try_register_path : TreeNode → LookAheadJobPath → Result (Bool × TreeNode)
try_register_path root path = try_register_below (size path) path root

unfoldable pub has_registered_path : TreeNode → LookAheadJobPath → Result Bool
has_registered_path root path = has_registered_below (size path) path root

-- LookAheadJobRegistryEntry: its timestamp, and a tree for each identifier.
pub record RegistryEntry : Type 0 where
  pub timestamp : ℕ
  pub id_trees : List (LookAheadJobIdentifier × TreeNode)

-- The keys of an ordered map are the same where neither is below the other.
abbrev pub same_key : LookAheadJobIdentifier → LookAheadJobIdentifier → Bool
same_key a b = not (id_lt a b) && not (id_lt b a)

unfoldable pub find_tree :
    LookAheadJobIdentifier → List (LookAheadJobIdentifier × TreeNode) → Option TreeNode
find_tree id [] = none
find_tree id ((j, t) ∷ trees) = if same_key j id then some t else find_tree id trees

-- The tree that the entry shares with the map is changed in place, or is a new one.
unfoldable pub put_tree :
    LookAheadJobIdentifier
    → TreeNode
    → List (LookAheadJobIdentifier × TreeNode)
    → List (LookAheadJobIdentifier × TreeNode)
put_tree id t [] = (id, t) ∷ []
put_tree id t ((j, u) ∷ trees) =
    if same_key j id then (j, t) ∷ trees else (j, u) ∷ put_tree id t trees

unfoldable pub tree_of :
    LookAheadJobIdentifier → List (LookAheadJobIdentifier × TreeNode) → TreeNode
tree_of id trees = elim (find_tree id trees) [ none ↦ new_tree | some t ↦ t ]

unfoldable pub entry_try_register :
    RegistryEntry → LookAheadJobIdentifier → LookAheadJobPath → Result (Bool × RegistryEntry)
entry_try_register e id path = do
  r ← try_register_path (tree_of id e.id_trees) path
  ok (r.0, record e { id_trees = put_tree id r.1 e.id_trees })

unfoldable pub entry_has_registered :
    RegistryEntry → LookAheadJobIdentifier → LookAheadJobPath → Result Bool
entry_has_registered e id path = elim (find_tree id e.id_trees) [
  | none ↦ ok false
  | some t ↦ has_registered_path t path
]

-- LookAheadJobRegistry: the entries, oldest first.
abbrev pub Registry : Type 0
Registry = List RegistryEntry

unfoldable pub is_new : Registry → ℕ → Bool
is_new [] timestamp = true
is_new (e ∷ []) timestamp = ltb e.timestamp timestamp
is_new (e ∷ f ∷ es) timestamp = is_new (f ∷ es) timestamp

-- The search from the back goes on to the end, so it stops at the first entry of that timestamp.
unfoldable pub register_at :
    Registry → ℕ → LookAheadJobIdentifier → LookAheadJobPath → Result (Bool × Registry)
register_at [] timestamp id path = assert false >> ok (false, [])
register_at (e ∷ es) timestamp id path = elim (e.timestamp == timestamp) [
  | true ↦ entry_try_register e id path >>= λ (r : Bool × RegistryEntry). ok (r.0, r.1 ∷ es)
  | false ↦ register_at es timestamp id path >>= λ (r : Bool × Registry). ok (r.0, e ∷ r.1)
]

unfoldable pub try_register :
    Registry → ℕ → LookAheadJobIdentifier → LookAheadJobPath → Result (Bool × Registry)
try_register es timestamp id path =
    let fresh : RegistryEntry = record { timestamp = timestamp; id_trees = [] } in
    if is_new es timestamp
    then (entry_try_register fresh id path >>= λ (r : Bool × RegistryEntry).
        ok (r.0, es ++ r.1 ∷ []))
    else register_at es timestamp id path

-- The search from the back stops at the last entry of that timestamp.
unfoldable pub last_at : Registry → ℕ → Option RegistryEntry → Option RegistryEntry
last_at [] timestamp found = found
last_at (e ∷ es) timestamp found =
    last_at es timestamp (if e.timestamp == timestamp then some e else found)

unfoldable pub has_registered :
    Registry → ℕ → LookAheadJobIdentifier → LookAheadJobPath → Result Bool
has_registered es timestamp id path = elim (last_at es timestamp none) [
  | none ↦ ok false
  | some e ↦ entry_has_registered e id path
]
