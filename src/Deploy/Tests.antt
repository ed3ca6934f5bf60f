-- ===== src/Deploy/Tests.antt =====
-- internal/app/deploy/saga.go: a failed deploy, a repeated one and a finished one as tests.
use cloud_lab_gateway.Common.{true, ◌≡◌, ◌≢◌, refl, none, some, []}
use cloud_lab_gateway.Common.Int.{pos}
use cloud_lab_gateway.Shared.{Err, Sentinel, panic}
use cloud_lab_gateway.Lab.{LabState, LabInstance, new}
use cloud_lab_gateway.Ports.{Env, DeployStep, StepBytes, gives}
use cloud_lab_gateway.Ports.Samples.{quiet_env, quiet_project}
use cloud_lab_gateway.Ports.Traces.{stored_labs}
use cloud_lab_gateway.Saving.{Holds}
use cloud_lab_gateway.Cleanup.Stages.{Last, walk}
use cloud_lab_gateway.Cleanup.Idle.{IsIdle}
use cloud_lab_gateway.Deploy.Topology.{Config}
use cloud_lab_gateway.Deploy.{no_handles, fail, run, succeed}
use cloud_lab_gateway.Deploy.Labs.{deploy-walks}
use cloud_lab_gateway.Deploy.Resume.{creations, run-creations, IsDeployed, succeed-IsDeployed}
use cloud_lab_gateway.Deploy.Compensation.{fail_forgets}

abbrev deploying_lab : LabInstance
unfolding new
deploying_lab = record (new 1 2 3 4 (pos 0)) {
  state = LabState.deploying;
  project_id = some 5;
  pending_events = [];
}

abbrev cause : Err
cause = Err.wrapped "boot server L-NFS" (Err.sentinel Sentinel.cloud_unavailable)

abbrev env : Env
env = quiet_env deploying_lab quiet_project

fail_forgets_example :
    let (r, tr') = fail env deploying_lab "boot_vm" cause [] in
    (r ≢ panic)
    × Holds (λ _. Last (λ l. (l.state ≡ LabState.failed) × IsIdle l) (stored_labs tr')) r
unfolding deploying_lab
fail_forgets_example = fail_forgets env deploying_lab "boot_vm" cause [] refl refl

abbrev config : Config
config = record { has_checks = true; cleanup_after = pos 0; max_attempts = pos 0 }

deploy-walks_example : walk LabState.deploying (stored_labs (run env config 1 []).1) ≢ none
unfolding deploying_lab
deploy-walks_example = deploy-walks env config 1 [] LabState.deploying refl refl

abbrev finished_step : DeployStep
finished_step = record {
  lab_id = 1;
  step_name = "boot_vm";
  status = "succeeded";
  attempt = 1;
  last_error = "";
  result = StepBytes.empty;
  started_at = some (pos 0);
  finished_at = some (pos 9);
}

abbrev again_env : Env
again_env = record env { steps_get = λ _ _ _. gives finished_step }

run-creations_example : creations (run again_env config 1 []).1 ≡ 0
run-creations_example = run-creations again_env config 1 [] (λ name tr. refl)

succeed-IsDeployed_example :
    let (r, tr') = succeed env config deploying_lab no_handles [] in
    (r ≢ panic) × Holds (λ _. Last (IsDeployed env config no_handles []) (stored_labs tr')) r
unfolding deploying_lab
succeed-IsDeployed_example = succeed-IsDeployed env config deploying_lab no_handles [] refl
