-- ===== src/Requests/Handling.antt =====
-- internal/app/lab/ops.go: what a request that changes a lab does, whatever the ports answer.
use cloud_lab_gateway.Common.{◌≡◌, ◌≢◌, Option, none, some, List, [], ◌∷◌, String, arith}
use cloud_lab_gateway.Common.Int.{ℤ, ◌+ℤ◌}
use cloud_lab_gateway.Shared.{LabInstanceId, Time, Err, err, panic}
use cloud_lab_gateway.Lab.{LabState, LabInstance}
use cloud_lab_gateway.Lab.Ops.{LabOp, apply}
use cloud_lab_gateway.Identity
use cloud_lab_gateway.Identity.{Role, can}
use cloud_lab_gateway.Ports.{Env, Call, Trace, Action, gives}
use cloud_lab_gateway.Ports.Traces.{called, stored_labs}
use cloud_lab_gateway.Saving.{Holds, save_lab_lem}
use cloud_lab_gateway.Requests.{
  Actor, Deps, cleanup_after, duration_of, subject_of, resource_of, can_lab, load_lab,
  enqueue_cleanup, stop_lab, freeze_lab, unfreeze_lab, extend_lab,
}

pub data Request : Type 0 where
  stop unfreeze : Request
  freeze : String → Option ℤ → Request
  extend : ℤ → Request

abbrev pub handle : Env → Deps → Actor → LabInstanceId → Request → Action LabInstance
handle env d actor id Request.stop = stop_lab env d actor id
handle env d actor id (Request.freeze reason seconds) = freeze_lab env d actor id reason seconds
handle env d actor id Request.unfreeze = unfreeze_lab env d actor id
handle env d actor id (Request.extend extend_by) = extend_lab env actor id extend_by

-- The right that a request needs, and the call on the aggregate that it makes at a time.
abbrev pub action_of : Request → Identity.Action
action_of Request.stop = Identity.Action.lab_delete
action_of (Request.freeze _ _) = Identity.Action.lab_freeze
action_of Request.unfreeze = Identity.Action.lab_unfreeze
action_of (Request.extend _) = Identity.Action.lab_extend

abbrev pub op_of : Deps → Actor → Request → Time → LabOp
op_of d actor Request.stop now = LabOp.move LabState.cleaning "stop_requested" now
op_of d actor (Request.freeze reason seconds) now =
    LabOp.freeze_until actor.user_id reason (now +ℤ duration_of d seconds) now
op_of d actor Request.unfreeze now = LabOp.unfreeze_at (now +ℤ cleanup_after d) now
op_of d actor (Request.extend extend_by) now = LabOp.extend (now +ℤ extend_by) now

-- Only staff may choose how long a lab stays frozen.
abbrev pub IsOpenTo : Role → Request → Type 0
IsOpenTo Role.student (Request.freeze _ (some _)) = ⊥
IsOpenTo _ _ = Unit

-- What a request that returns a lab has done.
pub record IsHandled (d : Deps) (actor : Actor) (req : Request) (lab : LabInstance) (now : Time)
    (old new : List LabInstance) (l : LabInstance) : Type 0 where
  pub allowed : can (subject_of actor) (action_of req) (resource_of lab) ≡ none
  pub permitted : IsOpenTo actor.role req
  pub accepted : (apply lab (op_of d actor req now)).1 ≡ none
  pub stored : new ≡ (apply lab (op_of d actor req now)).0 ∷ old
  pub returned : l ≡ record (apply lab (op_of d actor req now)).0 { pending_events = [] }

abbrev pub seen : LabInstanceId → Trace → Trace
seen id tr = called (Call.lab_get id) tr

module _ (env : Env) (d : Deps) (actor : Actor) (id : LabInstanceId) (tr : Trace)
    {lab : LabInstance} (loaded : env.lab_get id tr ≡ gives lab) where
  -- A request does not panic. Where it returns a lab, the policy allowed it to the actor, no student
  -- chose how long the lab stays frozen, the aggregate accepted the one call that the request stands
  -- for, the lab stored last and once is its result, and so is the lab returned, less its events.
  -- Where it returns an error, no lab was stored.
  pub handle-IsHandled :
      (req : Request)
      → let (r, tr') = handle env d actor id req tr in
        (r ≢ panic)
        × Holds
            (IsHandled d actor req lab (env.now (seen id tr)) (stored_labs tr) (stored_labs tr'))
            r
        × ((e : Err) → r ≡ err e → stored_labs tr' ≡ stored_labs tr)
  unfolding stop_lab freeze_lab unfreeze_lab extend_lab can_lab apply enqueue_cleanup load_lab
  handle-IsHandled Request.stop =
      let saved =
        save_lab_lem env (apply lab (op_of d actor Request.stop (env.now (seen id tr)))).0
          (called Call.clock_now (seen id tr)) in
      (ground (arith, loaded, saved), ground (arith, loaded, saved), ground (arith, loaded, saved))
  handle-IsHandled req =
      let saved =
        save_lab_lem env (apply lab (op_of d actor req (env.now (seen id tr)))).0
          (called Call.clock_now (seen id tr)) in
      (ground (arith, loaded, saved), ground (arith, loaded, saved), ground (arith, loaded, saved))
