-- ===== src/Admin/Projects.antt =====
-- internal/app/admin/admin.go, QuarantineProject and ReleaseProject: what is stored, whatever the ports answer.
use cloud_lab_gateway.Common.{◌≡◌, ◌≢◌, List, [], ◌∷◌, String, arith}
use cloud_lab_gateway.Shared.{ProjectId, Time, Err, err, panic}
use cloud_lab_gateway.Pool.{Project, ProjectState}
use cloud_lab_gateway.Pool.Ops.{ProjectOp, apply, run}
use cloud_lab_gateway.Identity.{Role}
use cloud_lab_gateway.Ports.{Env, Call, Trace, Action, gives}
use cloud_lab_gateway.Ports.Traces.{called, stored_projects}
use cloud_lab_gateway.Saving.{Holds}
use cloud_lab_gateway.Admin.{Actor, save_in_tx, quarantine_project, release_from, release_project}

pub data Request : Type 0 where
  lock_away : String → Request
  let_go : Request

abbrev pub handle : Env → Actor → ProjectId → Request → Action (Unit {0})
handle env actor id (Request.lock_away reason) = quarantine_project env actor id reason
handle env actor id Request.let_go = release_project env actor id

-- The calls on the project that a request stands for, in the state that the project is in.
abbrev pub ops_of : Request → ProjectState → Time → List ProjectOp
ops_of (Request.lock_away reason) s now = ProjectOp.quarantine_at reason now ∷ []
ops_of Request.let_go ProjectState.quarantine now =
    ProjectOp.resolve_at now ∷ ProjectOp.clean_at now ∷ []
ops_of Request.let_go ProjectState.free now = []
ops_of Request.let_go _ now = ProjectOp.clean_at now ∷ []

abbrev pub goal : Request → ProjectState
goal (Request.lock_away _) = ProjectState.quarantine
goal Request.let_go = ProjectState.free

-- The states that a request is accepted in.
abbrev pub IsOpenTo : Request → ProjectState → Type 0
IsOpenTo (Request.lock_away _) ProjectState.quarantine = ⊥
IsOpenTo (Request.lock_away _) ProjectState.decommissioned = ⊥
IsOpenTo (Request.lock_away _) _ = Unit
IsOpenTo Request.let_go ProjectState.allocated = ⊥
IsOpenTo Request.let_go ProjectState.decommissioned = ⊥
IsOpenTo Request.let_go _ = Unit

-- The projects that are stored after a request, those before it given.
abbrev pub stored_after : Request → ProjectState → Project → List Project → List Project
stored_after Request.let_go ProjectState.free q old = old
stored_after _ _ q old = q ∷ old

pub record IsSettled (role : Role) (req : Request) (p : Project) (now : Time)
    (old new : List Project) : Type 0 where
  pub allowed : role ≡ Role.admin
  pub accepted : IsOpenTo req p.state
  pub reached : (run p (ops_of req p.state now)).state ≡ goal req
  pub stored : new ≡ stored_after req p.state (run p (ops_of req p.state now)) old

module _ (env : Env) (actor : Actor) (id : ProjectId) (tr : Trace) {p : Project}
    (loaded : env.pool_get id (called Call.tx_begin (called Call.clock_now tr)) ≡ gives p) where
  -- A request does not panic. Where it returns no error, the actor is an administrator, the state of the project
  -- is one that the request is open to, and the project stored last and once is what the calls on the aggregate
  -- make of it, in the state that was asked for; a free project that is to be freed is not stored again. Where a
  -- request returns an error, no project was stored.
  pub handle-IsSettled :
      (req : Request)
      → let (r, tr') = handle env actor id req tr in
        (r ≢ panic)
        × Holds
            (λ _.
              IsSettled actor.role req p (env.now tr) (stored_projects tr) (stored_projects tr'))
            r
        × ((e : Err) → r ≡ err e → stored_projects tr' ≡ stored_projects tr)
  unfolding quarantine_project release_project release_from save_in_tx apply run
  handle-IsSettled (Request.lock_away reason) =
      (ground (arith, loaded), ground (arith, loaded), ground (arith, loaded))
  handle-IsSettled Request.let_go =
      (ground (arith, loaded), ground (arith, loaded), ground (arith, loaded))
