-- ===== src/ModeTrace.antt =====
-- ModeTrace (include/mode.hpp, src/mode.cpp): the modes that a robot goes through, each with the
-- likelihood of the trace up to it. The likelihoods are floating-point numbers, a parameter.
pub mod Reduction
pub mod Next
pub mod Ending
mod Tests
use opera.Prelude.{
  ℕ, zero, suc, ◌+◌, ◌-◌, List, [], ◌∷◌, ◌++◌, Bool, true, false, not, ltb, leb, ◌==◌,
  if◌then◌else◌, Option, none, some, Result, ok, err, require, assert, ◌>>=◌, ◌>>◌, length, is_nil,
  at,
}
use opera.Mode.{Mode, mode_eq, mode_ne}

-- What the traces do with likelihoods: 1.0, the product, the inequality, the sum and the quotient
-- by a number.
pub record Likelihoods (F : Type 0) : Type 0 where
  pub one : F
  pub mul : F → F → F
  pub ne : F → F → Bool
  pub add : F → F → F
  pub div : F → ℕ → F

pub record ModeTraceEntry (F : Type 0) : Type 0 where
  pub mode : Mode
  pub likelihood : F

-- `_entries`, and `_next_modes`, the map that `next_modes` keeps once it has computed it.
pub record ModeTrace (F : Type 0) : Type 0 where
  pub entries : List (ModeTraceEntry F)
  pub next_modes : List (Mode × F)

-- `OPERA_ASSERT_MSG(index != -1, ...)`
unfoldable pub assert_found : Option ℕ → Result ℕ
assert_found none = assert false >> ok 0
assert_found (some i) = ok i

module _ {F : Type 0} where
  unfoldable pub empty : ModeTrace F
  empty = record { entries = []; next_modes = [] }

  unfoldable pub size : ModeTrace F → ℕ
  size t = length t.entries

  unfoldable pub entry_at : ModeTrace F → ℕ → Result (ModeTraceEntry F)
  entry_at t idx = do require (ltb idx (length t.entries)); at t.entries idx

  unfoldable pub starting_mode : ModeTrace F → Result Mode
  starting_mode t = at t.entries 0 >>= λ e. ok e.mode

  -- On an empty trace the index wraps around, and lies out of range as 0 does.
  unfoldable pub ending_mode : ModeTrace F → Result Mode
  ending_mode t = at t.entries (length t.entries - 1) >>= λ e. ok e.mode

  -- The loop of `forward_index`, from the index that it is at; -1 is `none`.
  unfoldable pub forward_loop : List (ModeTraceEntry F) → ℕ → Mode → Result (Option ℕ)
  forward_loop [] i mode = ok none
  forward_loop (e ∷ es) i mode =
      let rest = forward_loop es (suc i) mode in
      mode_eq e.mode mode >>= λ found. if found then ok (some i) else rest

  unfoldable pub forward_index : ModeTrace F → Mode → Result (Option ℕ)
  forward_index t mode = forward_loop t.entries 0 mode

  -- The loop of `backward_index`, over the reversed entries, with the index below which they lie.
  unfoldable pub backward_loop : List (ModeTraceEntry F) → ℕ → Mode → Result (Option ℕ)
  backward_loop [] top mode = ok none
  backward_loop (e ∷ es) top mode =
      let rest = backward_loop es (top - 1) mode in
      mode_eq e.mode mode >>= λ found. if found then ok (some top) else rest

  abbrev reversed : List (ModeTraceEntry F) → List (ModeTraceEntry F)
  reversed [] = []
  reversed (e ∷ es) = reversed es ++ e ∷ []

  unfoldable pub backward_index : ModeTrace F → Mode → Result (Option ℕ)
  backward_index t mode = backward_loop (reversed t.entries) (length t.entries - 1) mode

  -- The loop of `reduce_between` on indices: `count` entries from `i` on.
  unfoldable pub collect : List (ModeTraceEntry F) → ℕ → ℕ → Result (List (ModeTraceEntry F))
  collect es i zero = ok []
  collect es i (suc count) = do
    e ← at es i
    new_entries ← collect es (suc i) count
    ok (e ∷ new_entries)

  unfoldable pub reduce_between_indices : ModeTrace F → ℕ → ℕ → Result (ModeTrace F)
  reduce_between_indices t lower upper = do
    assert (not (is_nil t.entries))
    assert (leb lower upper)
    new_entries ← collect t.entries lower (upper + 1 - lower)
    ok (record t { entries = new_entries })

  unfoldable pub reduce_between : ModeTrace F → Mode → Mode → Result (ModeTrace F)
  reduce_between t initial final = do
    assert (not (is_nil t.entries))
    found_bottom ← forward_index t initial
    bottom ← assert_found found_bottom
    found_top ← backward_index t final
    top ← assert_found found_top
    reduce_between_indices t bottom top

  unfoldable pub any_mode : List (ModeTraceEntry F) → Mode → Result Bool
  any_mode [] mode = ok false
  any_mode (e ∷ es) mode =
      let rest = any_mode es mode in
      mode_eq e.mode mode >>= λ found. if found then ok true else rest

  unfoldable pub contains : ModeTrace F → Mode → Result Bool
  contains t mode = any_mode t.entries mode

  -- The loop of `has_looped`, over all entries but the last.
  unfoldable pub any_before_last : List (ModeTraceEntry F) → Mode → Result Bool
  any_before_last [] mode = ok false
  any_before_last (e ∷ []) mode = ok false
  any_before_last (e ∷ f ∷ es) mode =
      let rest = any_before_last (f ∷ es) mode in
      mode_eq e.mode mode >>= λ found. if found then ok true else rest

  unfoldable pub has_looped : ModeTrace F → Result Bool
  has_looped t =
      if leb (length t.entries) 1
      then ok false
      else (ending_mode t >>= λ mode. any_before_last t.entries mode)

module _ {F : Type 0} ⦃l : Likelihoods F⦄ where
  unfoldable pub likelihood : ModeTrace F → Result F
  likelihood t =
      if is_nil t.entries
      then ok l.one
      else (at t.entries (length t.entries - 1) >>= λ e. ok e.likelihood)

  unfoldable pub push_front : ModeTrace F → Mode → ModeTrace F
  push_front t mode = record {
    entries = record { mode = mode; likelihood = l.one } ∷ t.entries;
    next_modes = [];
  }

  unfoldable pub push_back : ModeTrace F → Mode → F → Result (ModeTrace F)
  push_back t mode factor = do
    tail ← likelihood t
    ok (record {
      entries = t.entries ++ record { mode = mode; likelihood = l.mul tail factor } ∷ [];
      next_modes = [];
    })

  -- The loop of `operator==`, over entries of the same number.
  unfoldable pub same_entries : List (ModeTraceEntry F) → List (ModeTraceEntry F) → Result Bool
  same_entries [] fs = ok true
  same_entries (e ∷ es) [] = ok true
  same_entries (e ∷ es) (f ∷ fs) =
      let rest = same_entries es fs in
      mode_ne e.mode f.mode >>= λ other.
      if other then ok false else if l.ne e.likelihood f.likelihood then ok false else rest

  unfoldable pub trace_eq : ModeTrace F → ModeTrace F → Result Bool
  trace_eq t other =
      if not (size t == size other) then ok false else same_entries t.entries other.entries
