-- ===== src/Lab/Timers.antt =====
-- internal/domain/lab: the timers and the project of a lab, over its life in the program.
use cloud_lab_gateway.Common.{◌≡◌, ◌≢◌, ◌⊎◌, none, arith, ℕ}
use cloud_lab_gateway.Shared.{Time}
use cloud_lab_gateway.Lab.{LabState, LabInstance, can_transition, new}
use cloud_lab_gateway.Lab.Ops.{LabOp, apply}

-- A state that no method of the aggregate enters: the use cases enter it by `Transition`.
abbrev pub IsPlain : LabState → Type 0
IsPlain LabState.pending_project = Unit
IsPlain LabState.rejected = Unit
IsPlain LabState.failed = Unit
IsPlain LabState.cleaning = Unit
IsPlain LabState.done = Unit
IsPlain _ = ⊥

-- How the use cases call the methods: `Transition` for the plain states only, and `MarkReady`
-- after the deploy saga has seen the state `deploying`.
abbrev pub IsCalled : LabInstance → LabOp → Type 0
IsCalled l (LabOp.move to _ _) = IsPlain to
IsCalled l (LabOp.deployed _ _) = l.state ≡ LabState.deploying
IsCalled l _ = Unit

pub data Lives : LabInstance → Type 0 where
  born : (i u c t : ℕ) (now : Time) → Lives (new i u c t now)
  called : {l : LabInstance} → Lives l → (op : LabOp) → IsCalled l op → Lives (apply l op).0

pub record IsConsistent (l : LabInstance) : Type 0 where
  pub ready_timed : l.state ≡ LabState.ready → l.cleanup_at ≢ none
  pub frozen_timed :
      l.state ≡ LabState.frozen
      → (l.unfreeze_at ≢ none) × (l.frozen_by_user_id ≢ none) × (l.cleanup_at ≡ none)
  pub thawed :
      l.unfreeze_at ≢ none
      → (l.state ≡ LabState.frozen) ⊎ (l.state ≡ LabState.cleaning) ⊎ (l.state ≡ LabState.done)
  pub unassigned :
      l.project_id ≡ none
      → (l.state ≡ LabState.pending_quota)
        ⊎ (l.state ≡ LabState.pending_project)
        ⊎ (l.state ≡ LabState.rejected)
  pub assigned :
      l.project_id ≢ none
      → (l.state ≢ LabState.pending_quota)
        × (l.state ≢ LabState.pending_project)
        × (l.state ≢ LabState.rejected)

new-IsConsistent : (i u c t : ℕ) (now : Time) → IsConsistent (new i u c t now)
unfolding new
new-IsConsistent i u c t now = ground arith

apply-IsConsistent :
    (l : LabInstance) (op : LabOp) → IsCalled l op → IsConsistent l → IsConsistent (apply l op).0
unfolding apply can_transition
apply-IsConsistent l (LabOp.move LabState.pending_project reason now) c h = ground arith
apply-IsConsistent l op c h = ground arith

-- At every point of its life a lab is consistent: while ready it has a cleanup time, while frozen
-- it has an unfreeze time, the user who froze it and no cleanup time; an unfreeze time is set only
-- while the lab is frozen, cleaning or done; and it has a project exactly from its assignment on.
pub Lives-IsConsistent : {l : LabInstance} → Lives l → IsConsistent l
Lives-IsConsistent (born i u c t now) = new-IsConsistent i u c t now
Lives-IsConsistent (called {l} h op c) = apply-IsConsistent l op c (Lives-IsConsistent h)
