-- ===== src/Lab/Machine.antt =====
-- internal/domain/lab: the state machine that the methods of the aggregate follow.
use cloud_lab_gateway.Common.{
  ℕ, ◌≢◌, ◌≡◌, refl, ◌⧺◌, ◌↔◌, Option, none, some, List, [], ◌∷◌, ◌++◌, true, false, arith,
  if◌then◌else◌, ◌&&◌,
}
use cloud_lab_gateway.Shared.{Err, Time}
use cloud_lab_gateway.Lab.{
  LabState, LabInstance, LabEvent, same_state, is_terminal, can_transition, new,
}
use cloud_lab_gateway.Lab.Ops.{LabOp, apply, run}

-- A state is terminal exactly when the table lists no way out of it.
pub is_terminal_iff :
    (s : LabState) → (is_terminal s ≡ true) ↔ ((t : LabState) → can_transition s t ≡ false)
unfolding is_terminal can_transition
is_terminal_iff LabState.done = (λ _ t. refl, λ _. refl)
is_terminal_iff LabState.rejected = (λ _ t. refl, λ _. refl)
is_terminal_iff LabState.pending_quota = (λ e. cc, λ h. cc (h LabState.rejected))
is_terminal_iff LabState.pending_project = (λ e. cc, λ h. cc (h LabState.rejected))
is_terminal_iff LabState.deploying = (λ e. cc, λ h. cc (h LabState.failed))
is_terminal_iff LabState.ready = (λ e. cc, λ h. cc (h LabState.frozen))
is_terminal_iff LabState.checking = (λ e. cc, λ h. cc (h LabState.ready))
is_terminal_iff LabState.frozen = (λ e. cc, λ h. cc (h LabState.ready))
is_terminal_iff LabState.failed = (λ e. cc, λ h. cc (h LabState.cleaning))
is_terminal_iff LabState.cleaning = (λ e. cc, λ h. cc (h LabState.done))

infix 40 ◌⟶*◌
pub data ◌⟶*◌ : LabState → LabState → Type 0 where
  here : {s : LabState} → s ⟶* s
  step : {s t u : LabState} → can_transition s t ≡ true → t ⟶* u → s ⟶* u

-- From every state the machine can still reach a terminal state.
pub terminal_reachable : (s : LabState) → (t : LabState) × (s ⟶* t) × (is_terminal t ≡ true)
unfolding can_transition is_terminal
terminal_reachable LabState.pending_quota = (LabState.rejected, step refl here, refl)
terminal_reachable LabState.pending_project = (LabState.rejected, step refl here, refl)
terminal_reachable LabState.deploying = (
  LabState.done,
  step {t = LabState.failed} refl (step {t = LabState.cleaning} refl (step refl here)),
  refl,
)
terminal_reachable LabState.ready =
    (LabState.done, step {t = LabState.cleaning} refl (step refl here), refl)
terminal_reachable LabState.checking = (
  LabState.done,
  step {t = LabState.ready} refl (step {t = LabState.cleaning} refl (step refl here)),
  refl,
)
terminal_reachable LabState.frozen =
    (LabState.done, step {t = LabState.cleaning} refl (step refl here), refl)
terminal_reachable LabState.failed =
    (LabState.done, step {t = LabState.cleaning} refl (step refl here), refl)
terminal_reachable LabState.cleaning = (LabState.done, step refl here, refl)
terminal_reachable LabState.done = (LabState.done, here, refl)
terminal_reachable LabState.rejected = (LabState.rejected, here, refl)

-- A call that returns an error leaves the lab as it was, its events included.
pub apply_error_unchanged :
    (l : LabInstance) (op : LabOp) {e : Err} → (apply l op).1 ≡ some e → (apply l op).0 ≡ l
unfolding apply can_transition
apply_error_unchanged l (LabOp.move to reason now) h = ground arith
apply_error_unchanged l op h = ground arith

-- Every call on a lab in a terminal state returns an error and leaves the lab as it was.
pub terminal_absorbs :
    (l : LabInstance) (op : LabOp)
    → is_terminal l.state ≡ true
    → ((apply l op).1 ≢ none) × ((apply l op).0 ≡ l)
unfolding apply can_transition is_terminal
terminal_absorbs l (LabOp.move to reason now) h = ground arith
terminal_absorbs l op h = ground arith

-- Reads the events in order from a state: `none` if one does not start where the last one ended,
-- or is no edge of the table.
abbrev pub replay : LabState → List LabEvent → Option LabState
replay s [] = some s
replay s (LabEvent.state_changed _ from to _ ∷ evs) =
    let rest = replay to evs in if same_state s from && can_transition from to then rest else none
replay s (ev ∷ evs) = replay s evs

replay-snoc :
    (s : LabState) (evs : List LabEvent) (ev : LabEvent) (t : LabState)
    → replay s evs ≡ some t
    → replay s (evs ++ ev ∷ []) ≡ replay t (ev ∷ [])
replay-snoc s [] ev t h = let e : s ≡ t = cc in rw e
replay-snoc s (LabEvent.state_changed i from to r ∷ evs) ev t h =
    ground (arith, replay-snoc to evs ev t)
replay-snoc s (LabEvent.created _ _ _ _ ∷ evs) ev t h = replay-snoc s evs ev t h
replay-snoc s (LabEvent.project_assigned _ _ ∷ evs) ev t h = replay-snoc s evs ev t h
replay-snoc s (LabEvent.cleanup_extended _ _ ∷ evs) ev t h = replay-snoc s evs ev t h

abbrev IsLogged : LabInstance → Type 0
IsLogged l = replay LabState.pending_quota l.pending_events ≡ some l.state

after :
    (l : LabInstance) (ev : LabEvent)
    → IsLogged l
    → replay LabState.pending_quota (l.pending_events ++ ev ∷ []) ≡ replay l.state (ev ∷ [])
after l ev h = replay-snoc LabState.pending_quota l.pending_events ev l.state h

apply-IsLogged : (l : LabInstance) (op : LabOp) → IsLogged l → IsLogged (apply l op).0
unfolding apply can_transition
apply-IsLogged l (LabOp.move to reason now) h =
    ground (arith, after l (LabEvent.state_changed l.id l.state to reason))
apply-IsLogged l (LabOp.freeze_until by reason until now) h =
    ground
      (arith, after l (LabEvent.state_changed l.id l.state LabState.frozen ("freeze: " ⧺ reason)))
apply-IsLogged l (LabOp.unfreeze_at cleanup now) h =
    ground (arith, after l (LabEvent.state_changed l.id l.state LabState.ready "unfreeze"))
apply-IsLogged l (LabOp.extend cleanup now) h =
    ground (arith, after l (LabEvent.cleanup_extended l.id cleanup))
apply-IsLogged l (LabOp.deployed cleanup now) h =
    ground (arith, after l (LabEvent.state_changed l.id l.state LabState.ready "deploy_succeeded"))
apply-IsLogged l (LabOp.assign project now) h =
    let assigned = LabEvent.project_assigned l.id project in
    ground (
      arith,
      after l assigned,
      replay-snoc LabState.pending_quota (l.pending_events ++ assigned ∷ [])
          (LabEvent.state_changed l.id l.state LabState.deploying "project_assigned") l.state,
    )

run-IsLogged : (l : LabInstance) (ops : List LabOp) → IsLogged l → IsLogged (run l ops)
unfolding run
run-IsLogged l [] h = h
run-IsLogged l (op ∷ ops) h = run-IsLogged (apply l op).0 ops (apply-IsLogged l op h)

-- Whatever sequence of calls a new lab receives, accepted or refused, its recorded events replay
-- from `pending_quota`, edge by edge of the table, to the state it is in.
pub run-replay :
    (i u c t : ℕ) (now : Time) (ops : List LabOp)
    → replay LabState.pending_quota (run (new i u c t now) ops).pending_events
      ≡ some (run (new i u c t now) ops).state
unfolding new
run-replay i u c t now ops = run-IsLogged (new i u c t now) ops refl
