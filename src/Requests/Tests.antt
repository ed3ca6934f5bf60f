-- ===== src/Requests/Tests.antt =====
-- internal/app/lab/ops.go: the owner of a lab that is ready freezes it and asks for its key.
use cloud_lab_gateway.Common.{◌≡◌, ◌≢◌, ◌↔◌, refl, true, none, []}
use cloud_lab_gateway.Common.Int.{pos}
use cloud_lab_gateway.Shared.{Err, ok, err, panic}
use cloud_lab_gateway.Lab.{LabState}
use cloud_lab_gateway.Identity.{Role}
use cloud_lab_gateway.Ports.{Env}
use cloud_lab_gateway.Ports.Samples.{quiet_env, quiet_lab, quiet_project}
use cloud_lab_gateway.Ports.Traces.{stored_labs}
use cloud_lab_gateway.Saving.{Holds}
use cloud_lab_gateway.Requests.{Actor, Deps, get_lab_ssh_key}
use cloud_lab_gateway.Requests.Handling.{Request, handle, IsHandled, seen, handle-IsHandled}
use cloud_lab_gateway.Requests.Keys.{IsKept, get_lab_ssh_key-ok_iff}

abbrev env : Env
env = quiet_env (quiet_lab LabState.ready) quiet_project

abbrev owner : Actor
owner = record { user_id = 2; role = Role.student; course_roles = [] }

abbrev deps : Deps
deps = record {
  has_queue = true;
  has_steps = true;
  has_secrets = true;
  default_cleanup_after = pos 0;
  default_freeze_for = pos 0;
}

abbrev ask : Request
ask = Request.freeze "holiday" none

handle-IsHandled_example :
    let (r, tr') = handle env deps owner 1 ask [] in
    (r ≢ panic)
    × Holds
        (IsHandled deps owner ask
          (quiet_lab LabState.ready)
          (env.now (seen 1 []))
          []
          (stored_labs tr'))
        r
    × ((e : Err) → r ≡ err e → stored_labs tr' ≡ [])
handle-IsHandled_example = handle-IsHandled env deps owner 1 [] refl ask

get_lab_ssh_key-ok_iff_example : ((get_lab_ssh_key env deps owner 1 []).0 ≡ ok []) ↔ (
    (2 ≡ owner.user_id)
    × (deps.has_secrets ≡ true)
    × IsKept env (quiet_lab LabState.ready) (seen 1 []) [])
get_lab_ssh_key-ok_iff_example = get_lab_ssh_key-ok_iff env deps owner 1 [] refl []
