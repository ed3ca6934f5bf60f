-- ===== src/Cleanup/Tests.antt =====
-- internal/app/cleanup/saga.go: runs of the saga on a lab that is ready and names a server, a keypair
-- and a network, in a quiet environment.
use cloud_lab_gateway.Common.{◌≢◌, refl, none, [], arith}
use cloud_lab_gateway.Lab.{LabState, transition, can_transition}
use cloud_lab_gateway.Pool.{release, mark_clean}
use cloud_lab_gateway.Ports.{Env, with_tx}
use cloud_lab_gateway.Ports.Samples.{quiet_env, quiet_lab, quiet_project}
use cloud_lab_gateway.Ports.Traces.{stored_labs}
use cloud_lab_gateway.Saving.{save_lab, save_project}
use cloud_lab_gateway.Cleanup.{
  delete_servers, delete_keypair, delete_network, teardown_in, teardown, finish_lab, enter_cleaning,
  release_allocated, load_project, free_project, drop_key, after_success, settle, clean, run,
}
use cloud_lab_gateway.Cleanup.Teardown.{IsTornDown}
use cloud_lab_gateway.Cleanup.Stages.{walk}
use cloud_lab_gateway.Cleanup.Projects.{Finished}
use cloud_lab_gateway.Cleanup.Run.{run-Finished, run-walks, run-frees-IsTornDown}

abbrev env_for : LabState → Env
env_for s = quiet_env (quiet_lab s) quiet_project

run-frees-IsTornDown_example :
    IsTornDown (quiet_lab LabState.ready) [] (run (env_for LabState.ready) 1 []).1
unfolding run enter_cleaning clean can_transition transition save_lab save_project with_tx
    load_project release_allocated release teardown teardown_in delete_servers delete_keypair
    delete_network settle after_success free_project mark_clean drop_key finish_lab
run-frees-IsTornDown_example = run-frees-IsTornDown (env_for LabState.ready) 1 [] refl (omega arith)

run-Finished_example : Finished (quiet_lab LabState.ready) (run (env_for LabState.ready) 1 []).1
unfolding run enter_cleaning clean can_transition transition save_lab save_project with_tx
    load_project release_allocated release teardown teardown_in delete_servers delete_keypair
    delete_network settle after_success free_project mark_clean drop_key finish_lab
run-Finished_example = run-Finished (env_for LabState.ready) 1 [] refl tt refl

run-walks_example : walk LabState.ready (stored_labs (run (env_for LabState.ready) 1 []).1) ≢ none
run-walks_example = run-walks (env_for LabState.ready) 1 [] refl LabState.ready refl
