-- ===== src/JobRegistry/Tests.antt =====
-- Runs of the job registry, and the theorems at an input.
use opera.Prelude.{
  ℕ, ◌≡◌, refl, ◌↔◌, List, [], ◌∷◌, Bool, true, false, ◌&&◌, ◌||◌, ok, take, arith, inl,
}
use opera.Prelude.Texts.{text_eq}
use opera.JobPath
use opera.JobPath.{LookAheadJobPath}
use opera.JobIdentifier.{LookAheadJobIdentifier}
use opera.JobRegistry.{
  TreeNode, node, nil, cons, try_register_path, try_register_below, at_child, emplace_child,
  find_child, insert_child, node_priority, Registry, try_register, has_registered,
}
use opera.JobRegistry.Words.{member}
use opera.JobRegistry.Taken.{try_register_path-member}
use opera.JobRegistry.Entries.{registered, has_registered-registered}
use opera.JobRegistry.Registering.{Registers, try_register-Registers}

-- The word 0 is registered, and so is 2 1.
abbrev tree : TreeNode
tree = node 0 false (cons (node 0 true nil) (cons (node 2 false (cons (node 1 true nil) nil)) nil))

abbrev short_path : LookAheadJobPath
short_path = record { path = (2, 1) ∷ [] }

abbrev long_path : LookAheadJobPath
long_path = record { path = (2, 1) ∷ (3, 4) ∷ [] }

abbrev tree_after : TreeNode
tree_after =
    node 0 false (cons (node 0 true nil) (cons (node 2 true (cons (node 1 true nil) nil)) nil))

program : Unit {0}
unfolding try_register_below at_child emplace_child find_child insert_child node_priority
    JobPath.priority JobPath.size
program = tt

short_path_run : try_register_path tree short_path ≡ ok (true, tree_after)
unfolding program try_register_path
short_path_run = refl

long_path_run :
    try_register_path tree long_path
    ≡ ok (
      true,
      node 0 false (
          cons
            (node 0 true nil)
            (cons (node 2 false (cons (node 1 true nil) (cons (node 3 true nil) nil))) nil)),
    )
unfolding program try_register_path
long_path_run = refl

try_register_path-member_example :
    (accepted : Bool) × (t' : TreeNode) × (try_register_path tree short_path ≡ ok (accepted, t'))
    × ((accepted ≡ true) ↔ ((n : ℕ) → member (take n (2 ∷ [])) tree ≡ false))
    × ((v : List ℕ) → member v t' ≡ (member v tree || (accepted && text_eq v (2 ∷ []))))
try_register_path-member_example = try_register_path-member tree short_path

abbrev id : LookAheadJobIdentifier
id = record { human = b'h' ∷ []; human_segment = 1; robot = b'r' ∷ []; robot_segment = 4 }

abbrev registry : Registry
registry =
    record { timestamp = 100; id_trees = (id, tree) ∷ [] }
    ∷ record { timestamp = 120; id_trees = [] }
    ∷ []

has_registered-registered_example :
    has_registered registry 100 id short_path ≡ ok (registered registry 100 id (2 ∷ []))
has_registered-registered_example =
    has_registered-registered registry 100 id short_path (omega arith)

try_register-Registers_example :
    (accepted : Bool) × (es' : Registry) × (try_register registry 100 id short_path
      ≡ ok (accepted, es'))
    × Registers registry 100 id (2 ∷ []) accepted es'
try_register-Registers_example =
    try_register-Registers registry 100 id short_path (omega arith) (inl refl)
