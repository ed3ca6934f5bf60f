-- ===== src/Checks/Tests.antt =====
-- internal/app/verify/verify.go: a check of a lab that is ready, asked for by its owner.
use cloud_lab_gateway.Common.{refl, true, [], arith}
use cloud_lab_gateway.Lab.{LabState}
use cloud_lab_gateway.Verify.{RunState, CheckRun}
use cloud_lab_gateway.Verify.Runs.{IsTimed}
use cloud_lab_gateway.Identity.{Role}
use cloud_lab_gateway.Requests.{Actor}
use cloud_lab_gateway.Ports.{Env, gives}
use cloud_lab_gateway.Ports.Samples.{quiet_env, quiet_lab, quiet_project, quiet_run}
use cloud_lab_gateway.Ports.Traces.{stored_runs}
use cloud_lab_gateway.Checks.{Deps, run_check, execute_check}
use cloud_lab_gateway.Checks.Execution.{Executed, execute_check-Executed}
use cloud_lab_gateway.Checks.Asking.{Asked, run_check-Asked}

abbrev env : Env
env = quiet_env (quiet_lab LabState.ready) quiet_project

abbrev owner : Actor
owner = record { user_id = 2; role = Role.student; course_roles = [] }

abbrev deps : Deps
deps = record { has_templates = true; has_queue = true }

run_check-Asked_example :
    let (o, tr') = run_check env deps owner 1 1 [] in
    Asked owner (quiet_lab LabState.ready) 1 [] (stored_runs tr') o
run_check-Asked_example = run_check-Asked env deps owner 1 1 [] refl

quiet_run-IsTimed : IsTimed quiet_run
quiet_run-IsTimed = ground arith

execute_check-Executed_example :
    let (o, tr') = execute_check env 1 [] in Executed quiet_run [] (stored_runs tr') o
execute_check-Executed_example = execute_check-Executed env 1 [] refl quiet_run-IsTimed refl

abbrev passed : CheckRun
passed = record quiet_run { state = RunState.passed }

abbrev ended_env : Env
ended_env = record env { runs_get = λ _ _. gives passed }
