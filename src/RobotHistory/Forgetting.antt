-- ===== src/RobotHistory/Forgetting.antt =====
-- `remove_older_than` of a robot history (src/state.cpp).
use opera.Prelude.{
  ℕ, ◌≤◌, ◌<◌, ◌≡◌, refl, sym, ap, ◌∙◌, List, [], ◌∷◌, true, false, ltb, leb, ◌&&◌, Bool-cases, inl,
  inr, ok, err, undefined, require, >>=-eq-ok, ok-eq, arith, front, All,
}
use opera.Mode.{Mode}
use opera.ModeTrace.{ModeTrace}
use opera.ModeTrace
use opera.RobotHistory.{
  RobotModePresence, RobotStateHistory, mode_within, mode_at, drop_left, drop_traces, reduce_traces,
  remove_older_than,
}

mode_within-drop_left :
    (ps : List RobotModePresence) (latest : Mode) (t time : ℕ)
    → t ≤ time
    → mode_within (drop_left ps t) latest time ≡ mode_within ps latest time
unfolding mode_within drop_left
mode_within-drop_left [] latest t time h = refl
mode_within-drop_left (p ∷ ps) latest t time h = elim (Bool-cases (ltb p.to t)) [
  | inl e ↦
      let missed : leb p.from time && ltb time p.to ≡ false = ground (arith, e, h) in
      rw (e, missed) (mode_within-drop_left ps latest t time h)
  | inr e ↦ rw e refl
]

module _ {F : Type 0} where
  -- Every trace is older than the time.
  unfoldable pub AllOlder : ℕ → List (ℕ × ModeTrace F) → Type 0
  AllOlder t es = All (λ (e : ℕ × ModeTrace F). e.0 < t) es

  drop_traces-AllOlder :
      (es : List (ℕ × ModeTrace F)) (t : ℕ) → AllOlder t es → drop_traces es t ≡ []
  unfolding AllOlder drop_traces
  drop_traces-AllOlder [] t h = refl
  drop_traces-AllOlder ((s, trace) ∷ es) t h = ground (arith, h.0, drop_traces-AllOlder es t h.1)

  -- Where all mode traces are older than a positive time, as when the robot has not changed its mode
  -- since, `remove_older_than` forgets them all, and then reads the first one: undefined behaviour.
  pub remove_older_than-undefined :
      (h : RobotStateHistory F) (timestamp : ℕ)
      → 0 < timestamp
      → AllOlder timestamp h.mode_traces
      → remove_older_than h timestamp ≡ err undefined
  unfolding remove_older_than
  remove_older_than-undefined h timestamp positive older =
      let e : ltb 0 timestamp ≡ true = ground (arith, positive) in
      rw (e, drop_traces-AllOlder h.mode_traces timestamp older) refl

  -- Forgetting what is older than a time changes the answer of `mode_at` for no time from that one
  -- on, whenever it returns.
  pub mode_at-remove_older_than :
      (h : RobotStateHistory F) (timestamp time : ℕ) (r : RobotStateHistory F)
      → remove_older_than h timestamp ≡ ok r
      → timestamp ≤ time
      → mode_at r time ≡ mode_at h time
  unfolding remove_older_than mode_at
  mode_at-remove_older_than h timestamp time r e later =
      let (u, e1, e2) = >>=-eq-ok (require (ltb 0 timestamp)) _ e in
      let (f, e3, e4) = >>=-eq-ok (front (drop_traces h.mode_traces timestamp)) _ e2 in
      let (g, e5, e6) =
        >>=-eq-ok (reduce_traces (drop_traces h.mode_traces timestamp) 1 (ModeTrace.size f.1)) _
          e4 in
      sym (
        ap (λ (x : RobotStateHistory F). mode_within x.mode_presences x.latest_mode time)
          (ok-eq _ r e6))
      ∙ mode_within-drop_left h.mode_presences h.latest_mode timestamp time later
