-- ===== src/JobRegistry/Registering.antt =====
-- `try_register` on the whole job registry.
use opera.Prelude.{
  ℕ, ◌≤◌, ◌<◌, ◌≡◌, refl, sym, ap, ◌∙◌, ◌⊎◌, inl, inr, ◌↔◌, List, [], ◌∷◌, ◌++◌, none, some, Bool,
  true, false, ◌&&◌, ◌||◌, ◌==◌, if◌then◌else◌, Bool-cases, ok, err, assertion, arith, take, All,
}
use opera.Prelude.Texts.{text_eq}
use opera.JobPath.{LookAheadJobPath}
use opera.JobIdentifier.{LookAheadJobIdentifier, id_eq}
use opera.JobRegistry.{
  find_tree, tree_of, RegistryEntry, Registry, entry_try_register, is_new, register_at,
  try_register,
}
use opera.JobRegistry.Words.{member, word}
use opera.JobRegistry.Entries.{
  entry_at, tree_in, registered, IsChronological, entry_try_register-member, member-new_tree,
}

-- The entry of that timestamp replaced.
replace_entry : ℕ → RegistryEntry → Registry → Registry
replace_entry timestamp e' [] = []
replace_entry timestamp e' (e ∷ es) =
    if e.timestamp == timestamp then e' ∷ es else e ∷ replace_entry timestamp e' es

register_at-replace :
    (es : Registry) (timestamp : ℕ) (id : LookAheadJobIdentifier) (p : LookAheadJobPath)
    (e e' : RegistryEntry) (accepted : Bool)
    → entry_at timestamp es ≡ some e
    → entry_try_register e id p ≡ ok (accepted, e')
    → register_at es timestamp id p ≡ ok (accepted, replace_entry timestamp e' es)
unfolding register_at entry_at replace_entry
register_at-replace [] timestamp id p e e' accepted h k = absurd (cc)
register_at-replace (x ∷ es) timestamp id p e e' accepted h k =
    ground (arith, register_at-replace es timestamp id p e e' accepted)

register_at-missing :
    (es : Registry) (timestamp : ℕ) (id : LookAheadJobIdentifier) (p : LookAheadJobPath)
    → entry_at timestamp es ≡ none
    → register_at es timestamp id p ≡ err assertion
unfolding register_at entry_at
register_at-missing [] timestamp id p h = refl
register_at-missing (x ∷ es) timestamp id p h =
    ground (arith, register_at-missing es timestamp id p)

entry_at-replace :
    (k timestamp : ℕ) (es : Registry) (e e' : RegistryEntry)
    → entry_at timestamp es ≡ some e
    → e'.timestamp ≡ e.timestamp
    → entry_at k (replace_entry timestamp e' es)
      ≡ (if timestamp == k then some e' else entry_at k es)
unfolding entry_at replace_entry
entry_at-replace k timestamp [] e e' h t = absurd (cc)
entry_at-replace k timestamp (x ∷ es) e e' h t =
    ground (arith, entry_at-replace k timestamp es e e')

entry_at-timestamp :
    (timestamp : ℕ) (es : Registry) (e : RegistryEntry)
    → entry_at timestamp es ≡ some e
    → e.timestamp ≡ timestamp
unfolding entry_at
entry_at-timestamp timestamp [] e h = absurd (cc)
entry_at-timestamp timestamp (x ∷ es) e h = ground (arith, entry_at-timestamp timestamp es e)

All-replace :
    (low timestamp : ℕ) (es : Registry) (e' : RegistryEntry)
    → e'.timestamp ≡ timestamp
    → All (λ f. low < f.timestamp) es
    → All (λ f. low < f.timestamp) (replace_entry timestamp e' es)
unfolding replace_entry
All-replace low timestamp [] e' t h = tt
All-replace low timestamp (x ∷ es) e' t h = elim (Bool-cases (x.timestamp == timestamp)) [
  | inl same ↦ rw same (ground arith, h.1)
  | inr other ↦ rw other (h.0, All-replace low timestamp es e' t h.1)
]

replace-IsChronological :
    (timestamp : ℕ) (es : Registry) (e' : RegistryEntry)
    → e'.timestamp ≡ timestamp
    → IsChronological es
    → IsChronological (replace_entry timestamp e' es)
unfolding replace_entry
replace-IsChronological timestamp [] e' t h = tt
replace-IsChronological timestamp (x ∷ es) e' t h = elim (Bool-cases (x.timestamp == timestamp)) [
  | inl same ↦ let q : e'.timestamp ≡ x.timestamp = ground arith in rw same (rw q h.0, h.1)
  | inr other ↦
      rw other (
        All-replace x.timestamp timestamp es e' t h.0,
        replace-IsChronological timestamp es e' t h.1,
      )
]

-- The timestamp is that of an entry, or is past all of them.
abbrev pub Accepts : Registry → ℕ → Type 0
Accepts [] timestamp = Unit
Accepts (e ∷ es) timestamp =
    (e.timestamp ≡ timestamp) ⊎ ((e.timestamp < timestamp) × Accepts es timestamp)

is_new-later :
    (timestamp low : ℕ) (e : RegistryEntry) (es : Registry)
    → All (λ f. low < f.timestamp) (e ∷ es)
    → timestamp ≤ low
    → is_new (e ∷ es) timestamp ≡ false
unfolding is_new
is_new-later timestamp low e [] h k = ground arith
is_new-later timestamp low e (f ∷ es) h k = is_new-later timestamp low f es h.1 k

-- The two ways in which a timestamp is accepted.
abbrev Placed : Registry → ℕ → Type 0
Placed es timestamp =
    ((is_new es timestamp ≡ true) × All (λ f. f.timestamp < timestamp) es)
    ⊎ ((e : RegistryEntry) × (entry_at timestamp es ≡ some e) × (is_new es timestamp ≡ false))

Accepts-Placed :
    (es : Registry) (timestamp : ℕ)
    → IsChronological es
    → Accepts es timestamp
    → Placed es timestamp
unfolding is_new entry_at
Accepts-Placed [] timestamp h a = inl (refl, tt)
Accepts-Placed (e ∷ []) timestamp h (inl same) = inr (e, ground arith, ground arith)
Accepts-Placed (e ∷ []) timestamp h (inr (lt, a)) = inl (ground arith, (lt, tt))
Accepts-Placed (e ∷ f ∷ es) timestamp h (inl same) =
    inr (e, ground arith, is_new-later timestamp e.timestamp f es h.0 (omega arith))
Accepts-Placed (e ∷ f ∷ es) timestamp h (inr (lt, a)) =
    elim (Accepts-Placed (f ∷ es) timestamp h.1 a) [
      | inl (new, below) ↦ inl (new, (lt, below))
      | inr (x, found, old) ↦ inr (x, ground arith, old)
    ]

append-IsChronological :
    (es : Registry) (e' : RegistryEntry)
    → IsChronological es
    → All (λ f. f.timestamp < e'.timestamp) es
    → IsChronological (es ++ e' ∷ [])
append-IsChronological [] e' h k = (tt, tt)
append-IsChronological (e ∷ es) e' h k = (later es h.0, append-IsChronological es e' h.1 k.1)
  where
    later :
        (fs : Registry)
        → All (λ f. e.timestamp < f.timestamp) fs
        → All (λ f. e.timestamp < f.timestamp) (fs ++ e' ∷ [])
    later [] a = (k.0, tt)
    later (f ∷ fs) a = (a.0, later fs a.1)

entry_at-append :
    (k : ℕ) (es : Registry) (e' : RegistryEntry)
    → All (λ f. f.timestamp < e'.timestamp) es
    → entry_at k (es ++ e' ∷ []) ≡ (if e'.timestamp == k then some e' else entry_at k es)
unfolding entry_at
entry_at-append k [] e' h = refl
entry_at-append k (e ∷ es) e' h = ground (arith, entry_at-append k es e' h.1)

entry_at-below : (k : ℕ) (es : Registry) → All (λ f. f.timestamp < k) es → entry_at k es ≡ none
unfolding entry_at
entry_at-below k [] h = refl
entry_at-below k (e ∷ es) h = ground (arith, entry_at-below k es h.1)

-- What a call that returns does to the registered words.
pub record Registers (es : Registry) (timestamp : ℕ) (id : LookAheadJobIdentifier) (w : List ℕ)
    (accepted : Bool) (es' : Registry) : Type 0 where
  pub chronological : IsChronological es'
  pub exact : (accepted ≡ true) ↔ ((n : ℕ) → registered es timestamp id (take n w) ≡ false)
  pub keeps :
      (t : ℕ) (k : LookAheadJobIdentifier) (v : List ℕ)
      → registered es' t k v
        ≡ (registered es t k v || (accepted && (timestamp == t && (id_eq id k && text_eq v w))))

-- The entry `e` answers for the timestamp before, and `e'` after.
Registers-entry :
    (es es' : Registry) (timestamp : ℕ) (id : LookAheadJobIdentifier) (w : List ℕ) (accepted : Bool)
    (e e' : RegistryEntry)
    → IsChronological es'
    → ((k : LookAheadJobIdentifier) (v : List ℕ)
        → registered es timestamp k v ≡ member v (tree_of k e.id_trees))
    → ((t : ℕ) → entry_at t es' ≡ (if timestamp == t then some e' else entry_at t es))
    → ((accepted ≡ true) ↔ ((n : ℕ) → member (take n w) (tree_of id e.id_trees) ≡ false))
    → ((k : LookAheadJobIdentifier) (v : List ℕ)
        → member v (tree_of k e'.id_trees)
          ≡ (member v (tree_of k e.id_trees) || (accepted && (id_eq id k && text_eq v w))))
    → Registers es timestamp id w accepted es'
unfolding registered tree_in
Registers-entry es es' timestamp id w accepted e e' h before look exact keeps = record {
  chronological = h;
  exact = (
    λ a n. before id (take n w) ∙ exact.0 a n,
    λ g. exact.1 (λ n. sym (before id (take n w)) ∙ g n),
  );
  keeps = λ t k v. elim (Bool-cases (timestamp == t)) [
    | inl same ↦
        let q : timestamp ≡ t = ground arith in
        rw (look t, same, ← q, keeps k v)
          (ap (λ (b : Bool). b || (accepted && (id_eq id k && text_eq v w))) (sym (before k v)))
    | inr other ↦ rw (look t, other) (ground arith)
  ];
}

-- On a registry in chronological order, and a timestamp that it has or that is past all of its
-- timestamps, `try_register` returns. It succeeds exactly if neither the path's word of priorities
-- nor a prefix of it is registered for that timestamp and identifier, then adds that word for them
-- and changes no other, and keeps the chronological order.
pub try_register-Registers :
    (es : Registry) (timestamp : ℕ) (id : LookAheadJobIdentifier) (p : LookAheadJobPath)
    → IsChronological es
    → Accepts es timestamp
    → (accepted : Bool) × (es' : Registry) × (try_register es timestamp id p ≡ ok (accepted, es'))
      × Registers es timestamp id (word p.path) accepted es'
unfolding try_register registered tree_in tree_of find_tree
try_register-Registers es timestamp id p h a = elim (Accepts-Placed es timestamp h a) [
  | inl (new, below) ↦
      let fresh : RegistryEntry = record { timestamp = timestamp; id_trees = [] } in
      let (accepted, e', f, same, exact, keeps) = entry_try_register-member fresh id p in
      let same' : e'.timestamp ≡ timestamp = same in
      (
        accepted,
        es ++ e' ∷ [],
        rw (new, f),
        Registers-entry es (es ++ e' ∷ []) timestamp id (word p.path) accepted fresh e'
            (append-IsChronological es e' h (rw same' below))
            (λ k v. rw (entry_at-below timestamp es below) (ground (arith, member-new_tree v)))
            (λ t. entry_at-append t es e' (rw same' below) ∙ rw same') exact keeps,
      )
  | inr (e, found, old) ↦
      let (accepted, e', f, same, exact, keeps) = entry_try_register-member e id p in
      let same' : e'.timestamp ≡ timestamp = same ∙ entry_at-timestamp timestamp es e found in
      (
        accepted,
        replace_entry timestamp e' es,
        rw (old, register_at-replace es timestamp id p e e' accepted found f),
        Registers-entry es (replace_entry timestamp e' es) timestamp id (word p.path) accepted e e'
            (replace-IsChronological timestamp es e' same' h) (λ k v. rw found)
            (λ t. entry_at-replace t timestamp es e e' found same) exact keeps,
      )
]

-- A timestamp that lies before the last entry's, and is none of the entries', fails the assertion.
pub try_register-unknown :
    (es : Registry) (timestamp : ℕ) (id : LookAheadJobIdentifier) (p : LookAheadJobPath)
    → is_new es timestamp ≡ false
    → entry_at timestamp es ≡ none
    → try_register es timestamp id p ≡ err assertion
unfolding try_register
try_register-unknown es timestamp id p old missing =
    rw old (register_at-missing es timestamp id p missing)
