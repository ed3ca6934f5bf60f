-- ===== src/Admin/Tests.antt =====
-- internal/app/admin/admin.go: an administrator releases a project, and a teacher puts a setting.
use cloud_lab_gateway.Common.{length, ◌<◌, ◌≡◌, ◌≢◌, refl, [], true, false}
use cloud_lab_gateway.Shared.{Err, Sentinel, err, panic}
use cloud_lab_gateway.Pool.{Project, ProjectState}
use cloud_lab_gateway.Lab.{LabState}
use cloud_lab_gateway.Identity.{Role}
use cloud_lab_gateway.Ports.{Env}
use cloud_lab_gateway.Ports.Samples.{quiet_env, quiet_lab, quiet_project}
use cloud_lab_gateway.Ports.Traces.{stored_projects}
use cloud_lab_gateway.Saving.{Holds}
use cloud_lab_gateway.Admin.{Actor}
use cloud_lab_gateway.Admin.Projects.{Request, handle, IsSettled, handle-IsSettled}
use cloud_lab_gateway.Admin.Access.{Operation, operate, is_entitled, operate-IsGuarded}

abbrev project : Project
project = record quiet_project { state = ProjectState.quarantine }

abbrev env : Env
env = quiet_env (quiet_lab LabState.ready) project

abbrev administrator : Actor
administrator = record { user_id = 9; role = Role.admin }

abbrev teacher : Actor
teacher = record { user_id = 8; role = Role.teacher }

handle-IsSettled_example :
    let (r, tr') = handle env administrator 1 Request.let_go [] in
    (r ≢ panic)
    × Holds
        (λ _. IsSettled Role.admin Request.let_go project (env.now []) [] (stored_projects tr'))
        r
    × ((e : Err) → r ≡ err e → stored_projects tr' ≡ [])
handle-IsSettled_example = handle-IsSettled env administrator 1 [] refl Request.let_go

operate-IsGuarded_example :
    (is_entitled Role.teacher (Operation.release_one 1) ≡ false
      → operate env teacher (Operation.release_one 1) []
        ≡ (err (Err.sentinel Sentinel.forbidden), []))
    × (is_entitled Role.teacher (Operation.release_one 1) ≡ true
        → 0 < length (operate env teacher (Operation.release_one 1) []).1)
operate-IsGuarded_example = operate-IsGuarded env teacher (Operation.release_one 1) []
