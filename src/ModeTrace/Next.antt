-- ===== src/ModeTrace/Next.antt =====
-- `next_modes` and `merge` of mode traces (src/mode.cpp). The modes that have followed the longest
-- earlier occurrence of how the trace ends are counted.
use opera.Prelude.{
  ℕ, zero, suc, ◌+◌, ◌-◌, List, [], ◌∷◌, Bool, true, false, not, ltb, ◌==◌, if◌then◌else◌, Result,
  ok, err, out_of_fuel, ◌>>=◌, length, is_nil, at,
}
use opera.Barrier.{sub64}
use opera.Mode.{Mode, mode_eq, mode_lt, equivalent}
use opera.ModeTrace.{
  ModeTrace, ModeTraceEntry, Likelihoods, empty, size, entry_at, push_front, push_back,
}

pub record RobotDiscreteTraceBacktracking (F : Type 0) : Type 0 where
  pub index : ℕ
  pub trace : ModeTrace F
  pub next_mode : Mode
  pub is_valid : Bool

module _ {F : Type 0} where
  -- `_next_modes` with one more count of a mode, and divided by the number of counts.
  unfoldable pub count_mode : ⦃l : Likelihoods F⦄ → List (Mode × F) → Mode → List (Mode × F)
  count_mode ⦃l⦄ [] m = (m, l.one) ∷ []
  count_mode ⦃l⦄ ((k, v) ∷ ks) m =
      if equivalent k m
      then (k, l.add v l.one) ∷ ks
      else if mode_lt m k
      then (m, l.one) ∷ (k, v) ∷ ks
      else (k, v) ∷ count_mode ks m

  unfoldable pub divide_all : ⦃l : Likelihoods F⦄ → List (Mode × F) → ℕ → List (Mode × F)
  divide_all [] n = []
  divide_all ⦃l⦄ ((k, v) ∷ ks) n = (k, l.div v n) ∷ divide_all ks n

module _ {F : Type 0} ⦃l : Likelihoods F⦄ where
  -- The loop that begins a backtracking at each earlier occurrence of the last mode: the entries
  -- from the index on, of which the last one is left out.
  unfoldable pub start_tracking :
      List (ModeTraceEntry F) → ℕ → Mode → Result (List (RobotDiscreteTraceBacktracking F))
  start_tracking [] i last = ok []
  start_tracking (e ∷ []) i last = ok []
  start_tracking (e ∷ next ∷ es) i last =
      let rest = start_tracking (next ∷ es) (i + 1) last in
      mode_eq e.mode last >>= λ same.
      if same
      then (push_back empty e.mode e.likelihood >>= λ trace. rest >>= λ tracking.
          ok (
            record { index = i; trace = trace; next_mode = next.mode; is_valid = true } ∷ tracking))
      else rest

  -- One backtracking a step further, and whether it is still valid.
  unfoldable pub step_back :
      List (ModeTraceEntry F)
      → ℕ
      → RobotDiscreteTraceBacktracking F
      → Result (RobotDiscreteTraceBacktracking F)
  step_back es maximum_trace_size st =
      if not st.is_valid
      then ok st
      else if ltb 0 st.index
      then (at es (st.index - 1) >>= λ e. at es (sub64 (length es - 1) maximum_trace_size) >>= λ f.
          mode_eq e.mode f.mode >>= λ same. ok (
            if same
            then record st { index = st.index - 1; trace = push_front st.trace e.mode }
            else record st { index = st.index - 1; is_valid = false }))
      else ok (record st { is_valid = false })

  unfoldable pub step_all :
      List (ModeTraceEntry F)
      → ℕ
      → List (RobotDiscreteTraceBacktracking F)
      → Result (List (RobotDiscreteTraceBacktracking F))
  step_all es maximum_trace_size [] = ok []
  step_all es maximum_trace_size (st ∷ sts) = step_back es maximum_trace_size st >>= λ st'.
      step_all es maximum_trace_size sts >>= λ sts'. ok (st' ∷ sts')

  -- `num_valid`, which counts the valid ones down as they stop to be valid.
  unfoldable pub num_valid : List (RobotDiscreteTraceBacktracking F) → ℕ
  num_valid [] = 0
  num_valid (st ∷ sts) = if st.is_valid then suc (num_valid sts) else num_valid sts

  -- The while loop, with the rounds left: the backtrackings, the maximum size of their traces, and
  -- how many have it.
  unfoldable pub backtrack_loop :
      ℕ
      → List (ModeTraceEntry F)
      → List (RobotDiscreteTraceBacktracking F)
      → ℕ
      → ℕ
      → Result (List (RobotDiscreteTraceBacktracking F) × (ℕ × ℕ))
  backtrack_loop zero es tracking maximum_trace_size num_having = err out_of_fuel
  backtrack_loop (suc fuel) es tracking maximum_trace_size num_having =
      elim (ltb 0 (num_valid tracking)) [
        | false ↦ ok (tracking, (maximum_trace_size, num_having))
        | true ↦ step_all es (maximum_trace_size + 1) tracking >>= λ tracking'.
            backtrack_loop fuel es tracking' (maximum_trace_size + 1) (num_valid tracking)
      ]

  unfoldable pub count_longest :
      List (RobotDiscreteTraceBacktracking F) → ℕ → List (Mode × F) → List (Mode × F)
  count_longest [] maximum_trace_size counts = counts
  count_longest (t ∷ ts) maximum_trace_size counts =
      count_longest ts maximum_trace_size
        (if size t.trace == maximum_trace_size then count_mode counts t.next_mode else counts)

  unfoldable pub compute_next_modes : List (ModeTraceEntry F) → Result (List (Mode × F))
  compute_next_modes es = do
    last ← at es (sub64 (length es) 1)
    tracking ← start_tracking es 0 last.mode
    r ← backtrack_loop (suc (length es)) es tracking 0 0
    ok (divide_all (count_longest r.0 r.1.0 []) r.1.1)

  -- The next modes, and the trace that keeps them.
  unfoldable pub next_modes : ModeTrace F → Result (List (Mode × F) × ModeTrace F)
  next_modes t =
      if is_nil t.next_modes
      then (compute_next_modes t.entries >>= λ modes. ok (modes, record t { next_modes = modes }))
      else ok (t.next_modes, t)

  -- The loop of `merge`, from the index down.
  unfoldable pub merge_loop : ModeTrace F → ℕ → ModeTrace F → Result (ModeTrace F)
  merge_loop t1 zero result = ok result
  merge_loop t1 (suc i) result = entry_at t1 i >>= λ e. merge_loop t1 i (push_front result e.mode)

  unfoldable pub merge : ModeTrace F → ModeTrace F → Result (ModeTrace F)
  merge t1 t2 = do
    last ← entry_at t1 (sub64 (size t1) 1)
    first ← entry_at t2 0
    same ← mode_eq last.mode first.mode
    merge_loop t1 (if same then size t1 - 1 else size t1) t2
