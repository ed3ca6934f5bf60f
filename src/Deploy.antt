-- ===== src/Deploy.antt =====
-- internal/app/deploy/steps.go and saga.go: the saga that turns a lab in `deploying` into a running
-- stand, step by recorded step.
mod Topology
pub mod Compensation
pub mod Labs
pub mod Resume
mod Tests
pub use Topology.{Config}
use Topology.{
  topology_for, keypair_name, network_name, server_name, max_attempts, cleanup_after, VmSpec,
}
use cloud_lab_gateway.Common.{
  ℕ, ◌+◌, Bool, true, false, not, Option, none, some, List, [], ◌∷◌, ◌++◌, String, ◌⧺◌, decimal,
  str_eq, leb, if◌then◌else◌,
}
use cloud_lab_gateway.Common.Int.{ℤ, ◌+ℤ◌}
use cloud_lab_gateway.Shared.{
  LabInstanceId, ProjectId, SecretId, Time, Err, error_text, Outcome, ok, err, panic,
}
use cloud_lab_gateway.Lab
use cloud_lab_gateway.Lab.{LabState, LabInstance, KiResources, transition, mark_ready}
use cloud_lab_gateway.Ports.{
  Env, Answer, gives, fails, Call, Payload, Task, TaskType, NetworkSpec, ServerSpec, DeployState,
  DeployStep, StepBytes, Action, Handled, value, failed, pure, throw, answered, perform, read_clock,
  attempt, wrap, ◌>>=◌, ◌>>◌,
}
use cloud_lab_gateway.Saving.{save_lab, moved_lab}
use cloud_lab_gateway.Cleanup.{lab_id_in}

abbrev pub no_handles : DeployState
no_handles = record {
  keypair_name = "";
  key_secret_id = "";
  network_id = "";
  server_ids = [];
  floating_ips = [];
  initial_check = "";
}

-- A step works in the cloud's project of the lab, whose identifier is given as text.
abbrev pub StepRun : Type 0
StepRun = Env → Config → String → LabInstance → DeployState → Action DeployState

-- The copy of the private key in memory is overwritten after it is stored; it is used by nothing.
pub run_create_keypair : StepRun
run_create_keypair env cfg project lab st = do
  kp ← wrap "create keypair" (
      perform (Call.create_keypair project (keypair_name env lab))
        (env.create_keypair project (keypair_name env lab)))
  let ref = env.uuid_text lab.id
  secret ← wrap "store ssh key" (
      perform (Call.secrets_put "ssh_private_key" ref kp.private_key)
        (env.secrets_put "ssh_private_key" ref kp.private_key))
  pure (record st { keypair_name = kp.name; key_secret_id = env.uuid_text secret })

pub run_provision_network : StepRun
run_provision_network env cfg project lab st = do
  let spec : NetworkSpec = record {
    name = network_name env lab;
    cidr = (topology_for lab.lab_template_id).network_cidr;
  }
  net ←
      wrap "create network"
        (perform (Call.create_network project spec) (env.create_network project spec))
  pure (record st { network_id = net })

boot_vms : Env → String → LabInstance → List VmSpec → DeployState → Action DeployState
boot_vms env project lab [] st = pure st
boot_vms env project lab (vm ∷ vms) st = do
  let spec : ServerSpec = record {
    name = server_name env lab vm.name;
    image_ref = vm.image;
    flavor_ref = vm.flavor;
    network_id = st.network_id;
    keypair_name = st.keypair_name;
    user_data = "";
    metadata = ("clg.role", vm.role) ∷ ("clg.fixed_ip", vm.ip) ∷ [];
  }
  id ←
      wrap ("boot server " ⧺ vm.name)
        (perform (Call.boot_server project spec) (env.boot_server project spec))
  boot_vms env project lab vms (record st { server_ids = st.server_ids ++ id ∷ [] })

pub run_boot_vm : StepRun
run_boot_vm env cfg project lab st =
    boot_vms env project lab (topology_for lab.lab_template_id).vms (record st { server_ids = [] })

attach_ips : Env → String → List String → DeployState → Action DeployState
attach_ips env project [] st = pure st
attach_ips env project (s ∷ ss) st = do
  wrap ("wait for server " ⧺ s)
      (perform (Call.wait_for_active project s) (env.wait_for_active project s))
  ip ←
      wrap ("allocate floating ip for " ⧺ s)
        (perform (Call.allocate_floating_ip project s) (env.allocate_floating_ip project s))
  attach_ips env project ss (record st { floating_ips = st.floating_ips ++ ip ∷ [] })

pub run_wait_ssh : StepRun
run_wait_ssh env cfg project lab st =
    attach_ips env project st.server_ids (record st { floating_ips = [] })

pub run_initial_check : StepRun
run_initial_check env cfg project lab st =
    pure (record st { initial_check = if cfg.has_checks then "passed" else "skipped" })

pub record SagaStep : Type 0 where
  pub name : String
  pub exec : StepRun

pub ordered_steps : List SagaStep
ordered_steps =
    record { name = "create_keypair"; exec = run_create_keypair }
    ∷ record { name = "provision_network"; exec = run_provision_network }
    ∷ record { name = "boot_vm"; exec = run_boot_vm }
    ∷ record { name = "wait_ssh"; exec = run_wait_ssh }
    ∷ record { name = "initial_check"; exec = run_initial_check }
    ∷ []

-- json.Unmarshal of a step's result into the state: every field is written but `initial_check`,
-- which the encoder leaves out where it is empty.
replay_result : StepBytes → DeployState → Answer DeployState
replay_result StepBytes.empty st = gives st
replay_result (StepBytes.garbled e) st = fails e
replay_result (StepBytes.encoded r) st = gives (record r {
  initial_check = if str_eq r.initial_check "" then st.initial_check else r.initial_check;
})

abbrev cleanup_task : Env → LabInstance → String → Task
cleanup_task env lab suffix = record {
  kind = TaskType.cleanup_lab;
  payload = Payload.lab_body (env.uuid_text lab.id);
  idempotency_key = "cleanup:" ⧺ env.uuid_text lab.id ⧺ suffix;
  max_retries = 5;
}

-- A task that cannot be enqueued is logged.
pub fail : Env → LabInstance → String → Err → Action (Unit {0})
unfolding transition
fail env lab step cause = do
  now ← read_clock env
  let reason = "deploy failed at " ⧺ step ⧺ ": " ⧺ error_text cause
  l ← wrap "deploy: transition to failed" (moved_lab (transition lab LabState.failed reason now))
  save_lab env l
  let t = cleanup_task env lab ":compensate"
  attempt (perform (Call.enqueue t) (env.enqueue t))
  pure tt

with_key_id : LabInstance → Answer SecretId → LabInstance
with_key_id lab (fails _) = lab
with_key_id lab (gives k) = record lab {
  checker_ssh_key_secret_id = some k;
  student_ssh_key_secret_id = some k;
}

with_handles : Env → LabInstance → DeployState → LabInstance
unfolding with_key_id
with_handles env lab st =
    let l = record lab {
      ki_resources = record {
        server_ids = st.server_ids;
        network_id = st.network_id;
        floating_ips = st.floating_ips;
        keypair_name = st.keypair_name;
      };
    } in
    if str_eq st.key_secret_id "" then l else with_key_id l (env.uuid_parse st.key_secret_id)

pub succeed : Env → Config → LabInstance → DeployState → Action (Unit {0})
unfolding mark_ready
succeed env cfg lab st = do
  now ← read_clock env
  let cleanup_at = now +ℤ cleanup_after cfg
  l ← wrap "deploy: mark ready" (moved_lab (mark_ready (with_handles env lab st) cleanup_at now))
  save_lab env l
  let t = cleanup_task env lab ":timer"
  attempt (perform (Call.enqueue_at t cleanup_at) (env.enqueue_at t cleanup_at))
  pure tt

save_step : Env → DeployStep → Action (Unit {0})
save_step env rec = perform (Call.steps_save rec) (env.steps_save rec)

-- How a step leaves the loop: the next step runs on the state, or the saga has compensated and stops.
pub data Progress : Type 0 where
  continues : DeployState → Progress
  stops : Progress

conclude_step :
    Env → Config → LabInstance → String → DeployStep → Handled DeployState → Action Progress
unfolding save_step max_attempts
conclude_step env cfg lab name rec (value st) = do
  wrap ("deploy: save step " ⧺ name)
      (save_step env (record rec { status = "succeeded"; result = StepBytes.encoded st }))
  pure (continues st)
conclude_step env cfg lab name rec (failed e) = do
  attempt (save_step env (record rec { status = "failed"; last_error = error_text e }))
  if leb (max_attempts cfg) rec.attempt
      then (fail env lab name e >> pure stops)
      else throw (Err.wrapped ("deploy: step " ⧺ name ⧺ " (attempt " ⧺ decimal rec.attempt ⧺ ")") e)

attempt_step :
    Env → Config → String → LabInstance → SagaStep → DeployStep → DeployState → Action Progress
unfolding save_step conclude_step
attempt_step env cfg project lab step rec st = do
  started ← read_clock env
  let begun = record rec {
    status = "in_progress";
    attempt = rec.attempt + 1;
    last_error = "";
    started_at = some started;
  }
  wrap ("deploy: save step " ⧺ step.name) (save_step env begun)
  r ← attempt (step.exec env cfg project lab st)
  finished ← read_clock env
  conclude_step env cfg lab step.name (record begun { finished_at = some finished }) r

run_step :
    Env → Config → LabInstanceId → String → LabInstance → SagaStep → DeployState → Action Progress
unfolding replay_result attempt_step
run_step env cfg id project lab step st = do
  rec ←
      wrap ("deploy: load step " ⧺ step.name)
        (perform (Call.steps_get id step.name) (env.steps_get id step.name))
  if str_eq rec.status "succeeded"
      then (do
        st' ←
            wrap ("deploy: replay step " ⧺ step.name ⧺ " result")
              (answered (replay_result rec.result st))
        pure (continues st'))
      else attempt_step env cfg project lab step rec st

run_steps :
    Env
    → Config
    → LabInstanceId
    → String
    → LabInstance
    → List SagaStep
    → DeployState
    → Action (Unit {0})
run_steps env cfg id project lab [] st = succeed env cfg lab st
run_steps env cfg id project lab (step ∷ steps) st =
    run_step env cfg id project lab step st
    >>= elim [ stops ↦ pure tt | continues st' ↦ run_steps env cfg id project lab steps st' ]

deploy : Env → Config → LabInstanceId → LabInstance → Option ProjectId → Action (Unit {0})
deploy env cfg id lab none =
    throw (Err.external ("deploy: lab " ⧺ env.uuid_text id ⧺ " has no project assigned"))
deploy env cfg id lab (some p) = run_steps env cfg id (env.uuid_text p) lab ordered_steps no_handles

pub run : Env → Config → LabInstanceId → Action (Unit {0})
run env cfg id = do
  lab ← wrap "deploy: load lab" (perform (Call.lab_get id) (env.lab_get id))
  if not (Lab.same_state lab.state LabState.deploying)
      then pure tt
      else deploy env cfg id lab lab.project_id

pub handle_task : Env → Config → Task → Action (Unit {0})
handle_task env cfg t = do
  text ← wrap "deploy: bad task payload" (answered (lab_id_in t.payload))
  id ← wrap ("deploy: bad lab id \"" ⧺ text ⧺ "\"") (answered (env.uuid_parse text))
  run env cfg id
