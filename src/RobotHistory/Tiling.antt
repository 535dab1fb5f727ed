-- ===== src/RobotHistory/Tiling.antt =====
-- The presences of a robot history (src/state.cpp) follow each other without gaps.
use opera.Prelude.{
  ℕ, ◌≤◌, ◌<◌, ◌≡◌, sym, ap, ◌∙◌, subst, List, [], ◌∷◌, ◌++◌, Bool, true, false, ◌==◌,
  if◌then◌else◌, ok, assert, >>=-eq-ok, ok-eq, arith, length, at, All, ltb, leb, ◌&&◌,
}
use opera.Prelude.Doubles.{Doubles}
use opera.Prelude.Arithmetic.{Arithmetic}
use opera.Mode.{Mode}
use opera.Mode
use opera.ModeTrace.{Likelihoods}
use opera.RobotHistory.{RobotModePresence, RobotStateHistory, mode_at, mode_within}
use opera.Bodies.{num_points}
use opera.RobotHistory.Snapshot.{unrounded_sample_index}
use opera.RobotHistory.Acquiring.{
  Points, leave_mode, pad_buffer, entered_buffer, entrance_timestamp, update_target, update_loop,
  update_buffer, entered_traces, enter_mode, changes_mode, acquire,
}

-- Each presence ends after it begins, where the next one begins.
unfoldable pub Tiled : List RobotModePresence → Type 0
Tiled [] = Unit
Tiled (p ∷ []) = p.from ≤ p.to
Tiled (p ∷ q ∷ ps) = (p.from ≤ p.to) × (p.to ≡ q.from) × Tiled (q ∷ ps)

-- The presences end by the time.
abbrev pub EndBy : ℕ → List RobotModePresence → Type 0
EndBy time ps = All (λ (p : RobotModePresence). p.to ≤ time) ps

EndBy-mono : (s t : ℕ) (ps : List RobotModePresence) → s ≤ t → EndBy s ps → EndBy t ps
EndBy-mono s t [] h k = tt
EndBy-mono s t (p ∷ ps) h k = (omega (arith, h, k.0), EndBy-mono s t ps h k.1)

EndBy-append :
    (t : ℕ) (ps : List RobotModePresence) (p : RobotModePresence)
    → EndBy t ps
    → p.to ≤ t
    → EndBy t (ps ++ p ∷ [])
EndBy-append t [] p h k = (k, tt)
EndBy-append t (q ∷ ps) p h k = (h.0, EndBy-append t ps p h.1 k)

-- The next presence begins where the last one ends.
append-Tiled :
    (t from : ℕ) (m e : Mode) (ps : List RobotModePresence)
    → Tiled ps
    → EndBy t ps
    → entrance_timestamp ps t ≡ ok from
    → Tiled (ps ++ record { mode = m; exit_destination = e; from = from; to = t } ∷ [])
unfolding Tiled entrance_timestamp
append-Tiled t from m e [] h k enters = omega (arith, ok-eq t from enters)
append-Tiled t from m e (p ∷ []) h k enters =
    (h, ok-eq p.to from enters, omega (arith, ok-eq p.to from enters, k.0))
append-Tiled t from m e (p ∷ q ∷ ps) h k enters =
    (h.0, h.1, append-Tiled t from m e (q ∷ ps) h.2 k.1 enters)

module _ {F : Type 0} ⦃d : Doubles F⦄ ⦃a : Arithmetic F⦄ where
  leave_mode-presences :
      (h : RobotStateHistory F) (t : ℕ) (r : RobotStateHistory F)
      → leave_mode h t ≡ ok r
      → r.mode_presences ≡ h.mode_presences
  unfolding leave_mode
  leave_mode-presences h t r e =
      let (i, e1, e2) = >>=-eq-ok (unrounded_sample_index h t h.latest_mode t) _ e in
      let (b, e3, e4) = >>=-eq-ok (pad_buffer h i) _ e2 in
      sym (ap (λ (x : RobotStateHistory F). x.mode_presences) (ok-eq _ r e4))

  update_buffer-presences :
      (h : RobotStateHistory F) (ps : Points F) (t : ℕ) (r : RobotStateHistory F)
      → update_buffer h ps t ≡ ok r
      → (r.mode_presences ≡ h.mode_presences)
        × (r.latest_time ≡ h.latest_time)
        × (r.latest_mode ≡ h.latest_mode)
  unfolding update_buffer
  update_buffer-presences h ps t r e =
      let (f, e1, e2) = >>=-eq-ok (at h.current_mode_states_buffer 0) _ e in
      let (g, e3, e4) = >>=-eq-ok (update_target h t (length f)) _ e2 in
      let (b, e5, e6) =
        >>=-eq-ok (update_loop h.robot.body.segments 0 ps g.0 g.1 h.current_mode_states_buffer) _
          e4 in
      let same = ok-eq _ r e6 in
      (
        sym (ap (λ (x : RobotStateHistory F). x.mode_presences) same),
        sym (ap (λ (x : RobotStateHistory F). x.latest_time) same),
        sym (ap (λ (x : RobotStateHistory F). x.latest_mode) same),
      )

module _ {F : Type 0} ⦃d : Doubles F⦄ ⦃a : Arithmetic F⦄ ⦃l : Likelihoods F⦄ where
  left-presences :
      (z : Bool) (h : RobotStateHistory F) (t : ℕ) (r : RobotStateHistory F)
      → (if z then ok h else leave_mode h t) ≡ ok r
      → r.mode_presences ≡ h.mode_presences
  left-presences true h t r e =
      sym (ap (λ (x : RobotStateHistory F). x.mode_presences) (ok-eq h r e))
  left-presences false h t r e = leave_mode-presences h t r e

  enter_mode-Tiled :
      (h : RobotStateHistory F) (m : Mode) (t : ℕ) (r : RobotStateHistory F)
      → Tiled h.mode_presences
      → EndBy t h.mode_presences
      → enter_mode h m t ≡ ok r
      → Tiled r.mode_presences × EndBy t r.mode_presences
  unfolding enter_mode
  enter_mode-Tiled h m t r tiled ends e =
      let (left, e1, e2) =
        >>=-eq-ok (if Mode.is_empty h.latest_mode then ok h else leave_mode h t) _ e in
      let (b, e3, e4) = >>=-eq-ok (entered_buffer left m t) _ e2 in
      let (from, e5, e6) = >>=-eq-ok (entrance_timestamp left.mode_presences t) _ e4 in
      let (traces, e7, e8) = >>=-eq-ok (entered_traces left t) _ e6 in
      let same = left-presences (Mode.is_empty h.latest_mode) h t left e1 in
      let tiled' : Tiled left.mode_presences = subst Tiled (sym same) tiled in
      let ends' : EndBy t left.mode_presences = subst (EndBy t) (sym same) ends in
      subst (λ (x : RobotStateHistory F). Tiled x.mode_presences × EndBy t x.mode_presences)
        (ok-eq _ r e8)
        (
          append-Tiled t from left.latest_mode m left.mode_presences tiled' ends' e5,
          EndBy-append t left.mode_presences _ ends' (omega arith),
        )

  entered-Tiled :
      (z : Bool) (h : RobotStateHistory F) (m : Mode) (t : ℕ) (r : RobotStateHistory F)
      → Tiled h.mode_presences
      → EndBy t h.mode_presences
      → (if z then enter_mode h m t else ok h) ≡ ok r
      → Tiled r.mode_presences × EndBy t r.mode_presences
  entered-Tiled true h m t r tiled ends e = enter_mode-Tiled h m t r tiled ends e
  entered-Tiled false h m t r tiled ends e =
      subst (λ (x : RobotStateHistory F). Tiled x.mode_presences × EndBy t x.mode_presences)
        (ok-eq h r e) (tiled, ends)

  -- The presences of a robot history tile the time: each ends where the next begins, no earlier than
  -- it began itself, and none ends past the latest time. Acquiring a message that is no older than
  -- the latest time keeps this, and sets the latest time, whenever it returns.
  pub acquire-Tiled :
      (h : RobotStateHistory F) (mode : Mode) (points : Points F) (timestamp : ℕ)
      (r : RobotStateHistory F)
      → Tiled h.mode_presences
      → EndBy h.latest_time h.mode_presences
      → h.latest_time ≤ timestamp
      → acquire h mode points timestamp ≡ ok r
      → Tiled r.mode_presences × EndBy r.latest_time r.mode_presences × (r.latest_time ≡ timestamp)
  unfolding acquire
  acquire-Tiled h mode points timestamp r tiled ends later e =
      let (u, e1, e2) = >>=-eq-ok (assert (length points == num_points h.robot.body)) _ e in
      let (z, e3, e4) = >>=-eq-ok (changes_mode h mode) _ e2 in
      let (q, e5, e6) = >>=-eq-ok (if z then enter_mode h mode timestamp else ok h) _ e4 in
      let (tiled', ends') =
        entered-Tiled z h mode timestamp q tiled
          (EndBy-mono h.latest_time timestamp h.mode_presences later ends) e5 in
      let (same, time, _m) =
        update_buffer-presences (record q { latest_time = timestamp }) points timestamp r e6 in
      (
        subst Tiled (sym same) tiled',
        subst (λ n. EndBy n r.mode_presences) (sym time) (subst (EndBy timestamp) (sym same) ends'),
        time,
      )

first-Tiled : (p : RobotModePresence) (ps : List RobotModePresence) → Tiled (p ∷ ps) → p.from ≤ p.to
unfolding Tiled
first-Tiled p [] h = h
first-Tiled p (q ∷ ps) h = h.0

rest-Tiled : (p : RobotModePresence) (ps : List RobotModePresence) → Tiled (p ∷ ps) → Tiled ps
unfolding Tiled
rest-Tiled p [] h = tt
rest-Tiled p (q ∷ ps) h = h.2

-- A former presence ends before a later one begins.
before-Tiled :
    (q : RobotModePresence) (ps : List RobotModePresence) (p : RobotModePresence)
    (qs : List RobotModePresence)
    → Tiled (q ∷ (ps ++ p ∷ qs))
    → q.to ≤ p.from
unfolding Tiled
before-Tiled q [] p qs h = omega (arith, h.1)
before-Tiled q (r ∷ ps) p qs h =
    omega (arith, h.1, first-Tiled r (ps ++ p ∷ qs) h.2, before-Tiled r ps p qs h.2)

mode_within-Tiled :
    (ps qs : List RobotModePresence) (p : RobotModePresence) (latest : Mode) (time : ℕ)
    → Tiled (ps ++ p ∷ qs)
    → p.from ≤ time
    → time < p.to
    → mode_within (ps ++ p ∷ qs) latest time ≡ p.mode
unfolding mode_within
mode_within-Tiled [] qs p latest time tiled h k = ground (arith, h, k)
mode_within-Tiled (q ∷ ps) qs p latest time tiled h k =
    let missed : leb q.from time && ltb time q.to ≡ false =
      ground (arith, before-Tiled q ps p qs tiled, h) in
    rw missed (mode_within-Tiled ps qs p latest time (rest-Tiled q (ps ++ p ∷ qs) tiled) h k)

-- Where the presences of a history tile the time, `mode_at` answers for every time within a
-- presence, its end excluded, with the mode of that presence.
pub mode_at-Tiled :
    {F : Type 0} (h : RobotStateHistory F) (ps qs : List RobotModePresence) (p : RobotModePresence)
    (time : ℕ)
    → h.mode_presences ≡ ps ++ p ∷ qs
    → Tiled h.mode_presences
    → p.from ≤ time
    → time < p.to
    → mode_at h time ≡ p.mode
unfolding mode_at
mode_at-Tiled h ps qs p time e tiled from to =
    ap (λ x. mode_within x h.latest_mode time) e
    ∙ mode_within-Tiled ps qs p h.latest_mode time (subst Tiled e tiled) from to
