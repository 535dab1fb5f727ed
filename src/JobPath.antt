-- ===== src/JobPath.antt =====
-- LookAheadJobPath (include/lookahead_job.hpp, src/lookahead_job.cpp): the priorities chosen where
-- the prediction branched, with the trace positions of the branches.
pub mod Reduce
mod Tests
use opera.Prelude.{
  ℕ, zero, suc, ◌+◌, ◌-◌, List, [], ◌∷◌, ◌++◌, Bool, true, false, ltb, ◌==◌, ◌||◌, if◌then◌else◌,
  Result, ok, err, undefined, out_of_fuel, out_of_range, require, assert, ◌>>=◌, ◌>>◌, length, at,
  back, drop_last, is_nil,
}

pub record LookAheadJobPath : Type 0 where
  pub path : List (ℕ × ℕ)

unfoldable pub empty : LookAheadJobPath
empty = record { path = [] }

-- Whether the position comes after the last one of the path.
unfoldable pub extends : LookAheadJobPath → ℕ → Result Bool
extends p trace_position =
    if length p.path == 0
    then ok true
    else (at p.path (length p.path - 1) >>= λ (e : ℕ × ℕ). ok (ltb e.1 trace_position))

unfoldable pub add : LookAheadJobPath → ℕ → ℕ → Result LookAheadJobPath
add p priority trace_position = do
  require (ltb 0 trace_position)
  later ← extends p trace_position
  assert later
  ok (record { path = p.path ++ (priority, trace_position) ∷ [] })

-- The loop of `remove_le_than` over the entries, with the new path so far.
unfoldable pub remove_le_loop : List (ℕ × ℕ) → ℕ → LookAheadJobPath → Result LookAheadJobPath
remove_le_loop [] trace_position new_path = ok new_path
remove_le_loop ((priority, position) ∷ es) trace_position new_path =
    (if ltb trace_position position
      then add new_path priority (position - trace_position)
      else ok new_path)
    >>= λ new_path'. remove_le_loop es trace_position new_path'

unfoldable pub remove_le_than : LookAheadJobPath → ℕ → Result LookAheadJobPath
remove_le_than p trace_position = remove_le_loop p.path trace_position empty

-- The loop of `remove_g_than`, with the rounds left.
unfoldable pub remove_g_loop : ℕ → List (ℕ × ℕ) → ℕ → Result (List (ℕ × ℕ))
remove_g_loop zero es trace_position = err out_of_fuel
remove_g_loop (suc fuel) es trace_position =
    let rest = remove_g_loop fuel (drop_last es) trace_position in
    if is_nil es
    then ok es
    else (back es >>= λ (e : ℕ × ℕ). if ltb trace_position e.1 then rest else ok es)

unfoldable pub remove_g_than : LookAheadJobPath → ℕ → Result LookAheadJobPath
remove_g_than p trace_position =
    remove_g_loop (suc (length p.path)) p.path trace_position >>= λ es. ok (record { path = es })

unfoldable pub reduce_between : LookAheadJobPath → ℕ → ℕ → Result LookAheadJobPath
reduce_between p lower_trace_position upper_trace_position = do
  p' ← remove_g_than p upper_trace_position
  remove_le_than p' lower_trace_position

unfoldable pub size : LookAheadJobPath → ℕ
size p = length p.path

unfoldable pub priority : LookAheadJobPath → ℕ → Result ℕ
priority p index = do require (ltb index (size p)); e ← at p.path index; ok e.0

primary_entries : List (ℕ × ℕ) → Bool
primary_entries [] = true
primary_entries ((priority, position) ∷ es) = if ltb 0 priority then false else primary_entries es

pub is_primary : LookAheadJobPath → Bool
is_primary p = primary_entries p.path
