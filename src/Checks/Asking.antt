-- ===== src/Checks/Asking.antt =====
-- internal/app/verify/verify.go, RunCheck: what a request for a check stores.
use cloud_lab_gateway.Common.{◌≡◌, none, some, List, ◌∷◌, arith}
use cloud_lab_gateway.Shared.{LabInstanceId, CheckTemplateId, Outcome, ok, err, panic}
use cloud_lab_gateway.Lab.{LabState, LabInstance}
use cloud_lab_gateway.Verify.{RunState, CheckRun}
use cloud_lab_gateway.Verify.Runs.{IsTimed}
use cloud_lab_gateway.Identity
use cloud_lab_gateway.Identity.{can}
use cloud_lab_gateway.Requests.{Actor, can_lab, subject_of, resource_of}
use cloud_lab_gateway.Ports.{Env, Trace, gives}
use cloud_lab_gateway.Ports.Traces.{stored_runs}
use cloud_lab_gateway.Checks.{Deps, run_check, find_template, queue_run, create_run, enqueue_check}

-- The run that was asked for is stored last, queued, by an actor whom the policy allows to check the
-- lab, which is ready.
abbrev pub Asked :
    Actor
    → LabInstance
    → CheckTemplateId
    → List CheckRun
    → List CheckRun
    → Outcome CheckRun
    → Type 0
Asked a lab template old new (ok r) =
    (new ≡ r ∷ old)
    × (r.state ≡ RunState.queued)
    × (r.triggered_by ≡ some a.user_id)
    × (r.lab_instance_id ≡ lab.id)
    × (r.check_template_id ≡ template)
    × IsTimed r
    × (lab.state ≡ LabState.ready)
    × (can (subject_of a) Identity.Action.check_run (resource_of lab) ≡ none)
Asked a lab template old new (err e) = new ≡ old
Asked a lab template old new panic = ⊥

-- Where a request for a check returns a run, that run was stored once, queued, for the lab, the
-- template and the actor asked for, the lab is ready and the policy lets the actor check it. Where it
-- returns an error, no run was stored. It does not panic.
pub run_check-Asked :
    (env : Env) (d : Deps) (a : Actor) (id : LabInstanceId) (template : CheckTemplateId)
    (tr : Trace) {lab : LabInstance}
    → env.lab_get id tr ≡ gives lab
    → let (o, tr') = run_check env d a id template tr in
      Asked a lab template (stored_runs tr) (stored_runs tr') o
unfolding run_check find_template queue_run create_run enqueue_check can_lab
run_check-Asked env d a id template tr loaded = ground (arith, loaded)
