-- ===== src/Deploy/Labs.antt =====
-- internal/app/deploy: which labs the saga stores.
use cloud_lab_gateway.Common.{
  ◌≡◌, ◌≢◌, ◌+◌, refl, inl, inr, none, some, List, [], ◌∷◌, String, ◌⧺◌, arith, All, Option-cases,
}
use cloud_lab_gateway.Common.Int.{◌+ℤ◌}
use cloud_lab_gateway.Shared.{LabInstanceId, Err, error_text, Outcome, Outcome-cases, ok}
use cloud_lab_gateway.Lab.{LabState, LabInstance, can_transition, transition, mark_ready}
use cloud_lab_gateway.Ports.{
  Env, Call, Trace, DeployState, DeployStep, Handled, value, failed, Answer-cases, gives,
}
use cloud_lab_gateway.Ports.Traces.{called, stored_labs}
use cloud_lab_gateway.Saving.{save_lab_lem}
use cloud_lab_gateway.Cleanup.Stages.{walk}
use cloud_lab_gateway.Deploy.{
  Config, StepRun, SagaStep, Progress, continues, stops, run_create_keypair, run_provision_network,
  boot_vms, run_boot_vm, attach_ips, run_wait_ssh, run_initial_check, ordered_steps, fail, succeed,
  with_handles, conclude_step, attempt_step, run_step, run_steps, deploy, run, no_handles,
}
use cloud_lab_gateway.Deploy.Topology.{VmSpec, cleanup_after}

-- A step of the saga stores no lab.
abbrev IsApart : StepRun → Type 0
IsApart f =
    (env : Env) (cfg : Config) (project : String) (lab : LabInstance) (st : DeployState)
    (tr : Trace)
    → stored_labs (f env cfg project lab st tr).1 ≡ stored_labs tr

create_keypair-IsApart : IsApart run_create_keypair
unfolding run_create_keypair
create_keypair-IsApart env cfg project lab st tr = ground arith

provision_network-IsApart : IsApart run_provision_network
unfolding run_provision_network
provision_network-IsApart env cfg project lab st tr = ground arith

boot_vms-stored :
    (env : Env) (project : String) (lab : LabInstance) (vms : List VmSpec) (st : DeployState)
    (tr : Trace)
    → stored_labs (boot_vms env project lab vms st tr).1 ≡ stored_labs tr
unfolding boot_vms
boot_vms-stored env project lab [] st tr = refl
boot_vms-stored env project lab (vm ∷ vms) st tr =
    grind (arith, boot_vms-stored env project lab vms)

attach_ips-stored :
    (env : Env) (project : String) (ss : List String) (st : DeployState) (tr : Trace)
    → stored_labs (attach_ips env project ss st tr).1 ≡ stored_labs tr
unfolding attach_ips
attach_ips-stored env project [] st tr = refl
attach_ips-stored env project (s ∷ ss) st tr = grind (arith, attach_ips-stored env project ss)

initial_check-IsApart : IsApart run_initial_check
unfolding run_initial_check
initial_check-IsApart env cfg project lab st tr = refl

steps-IsApart : All (λ s. IsApart s.exec) ordered_steps
unfolding ordered_steps run_boot_vm run_wait_ssh
steps-IsApart = (
  create_keypair-IsApart,
  (
    provision_network-IsApart,
    (
      (λ env cfg project lab st tr. boot_vms-stored env project lab _ _ tr),
      (
        (λ env cfg project lab st tr. attach_ips-stored env project _ _ tr),
        (initial_check-IsApart, tt),
      ),
    ),
  ),
)

-- A step that lets the loop go on has stored no lab.
abbrev GoesOn : Outcome Progress → List LabInstance → List LabInstance → Type 0
GoesOn (ok (continues _)) old new = new ≡ old
GoesOn _ old new = Unit

with_handles-state :
    (env : Env) (lab : LabInstance) (st : DeployState) → (with_handles env lab st).state ≡ lab.state
unfolding with_handles
with_handles-state env lab st = ground arith

module _ (env : Env) (cfg : Config) (lab : LabInstance) (s : LabState)
    (deploying : lab.state ≡ LabState.deploying) where
  fail_walks :
      (step : String) (cause : Err) (tr : Trace)
      → walk s (stored_labs tr) ≡ some lab.state
      → walk s (stored_labs (fail env lab step cause tr).1) ≢ none
  unfolding fail can_transition
  fail_walks step cause tr h =
      let reason = "deploy failed at " ⧺ step ⧺ ": " ⧺ error_text cause in
      let l = (transition lab LabState.failed reason (env.now tr)).0 in
      ground (arith, save_lab_lem env l (called Call.clock_now tr))

  succeed_walks :
      (st : DeployState) (tr : Trace)
      → walk s (stored_labs tr) ≡ some lab.state
      → walk s (stored_labs (succeed env cfg lab st tr).1) ≢ none
  unfolding succeed can_transition
  succeed_walks st tr h =
      let now = env.now tr in
      let l = (mark_ready (with_handles env lab st) (now +ℤ cleanup_after cfg) now).0 in
      ground (arith, with_handles-state env lab st, save_lab_lem env l (called Call.clock_now tr))

  conclude_step_walks :
      (name : String) (rec : DeployStep) (r : Handled DeployState) (tr : Trace)
      → walk s (stored_labs tr) ≡ some lab.state
      → let (p, tr') = conclude_step env cfg lab name rec r tr in
        (walk s (stored_labs tr') ≢ none) × GoesOn p (stored_labs tr) (stored_labs tr')
  unfolding conclude_step
  conclude_step_walks name rec (value st) tr h = (ground arith, ground arith)
  conclude_step_walks name rec (failed e) tr h = (grind (arith, fail_walks name e), ground arith)

  module _ (project : String) (step : SagaStep) (apart : IsApart step.exec) where
    attempt_step_walks :
        (rec : DeployStep) (st : DeployState) (tr : Trace)
        → walk s (stored_labs tr) ≡ some lab.state
        → let (p, tr') = attempt_step env cfg project lab step rec st tr in
          (walk s (stored_labs tr') ≢ none) × GoesOn p (stored_labs tr) (stored_labs tr')
    unfolding attempt_step
    attempt_step_walks rec st tr h =
        let begun = record rec {
          status = "in_progress";
          attempt = rec.attempt + 1;
          last_error = "";
          started_at = some (env.now tr);
        } in
        let saved = called (Call.steps_save begun) (called Call.clock_now tr) in
        let (o, ran) = step.exec env cfg project lab st saved in
        let done = record begun { finished_at = some (env.now ran) } in
        let same = apart env cfg project lab st saved in
        elim (Outcome-cases o) [
          | inl (st', e) ↦ ground (
            arith,
            e,
            same,
            conclude_step_walks step.name done (value st') (called Call.clock_now ran),
          )
          | inr (inl (x, e)) ↦ ground (
            arith,
            e,
            same,
            conclude_step_walks step.name done (failed x) (called Call.clock_now ran),
          )
          | inr (inr e) ↦ ground (arith, e, same)
        ]

    run_step_walks :
        (id : LabInstanceId) (st : DeployState) (tr : Trace)
        → walk s (stored_labs tr) ≡ some lab.state
        → let (p, tr') = run_step env cfg id project lab step st tr in
          (walk s (stored_labs tr') ≢ none) × GoesOn p (stored_labs tr) (stored_labs tr')
    unfolding run_step
    run_step_walks id st tr h = elim (Answer-cases (env.steps_get id step.name tr)) [
      | inl (rec, e) ↦
          ground (arith, e, attempt_step_walks rec st (called (Call.steps_get id step.name) tr))
      | inr (x, e) ↦ ground (arith, e)
    ]

  run_steps_walks :
      (id : LabInstanceId) (project : String) (steps : List SagaStep) (st : DeployState)
      (tr : Trace)
      → All (λ step. IsApart step.exec) steps
      → walk s (stored_labs tr) ≡ some lab.state
      → walk s (stored_labs (run_steps env cfg id project lab steps st tr).1) ≢ none
  unfolding run_steps
  run_steps_walks id project [] st tr a h = succeed_walks st tr h
  run_steps_walks id project (step ∷ steps) st tr a h =
      let (o, mid) = run_step env cfg id project lab step st tr in
      let here = run_step_walks project step a.0 id st tr h in
      elim (Outcome-cases o) [
        | inl (stops, e) ↦ ground (arith, e, here)
        | inl (continues st', e) ↦
            ground (arith, e, here, run_steps_walks id project steps st' mid a.1)
        | inr (inl (x, e)) ↦ ground (arith, e, here)
        | inr (inr e) ↦ ground (arith, e, here)
      ]

-- The saga stores labs by edges of the table of transitions only: where the labs stored before it
-- lead from a state, edge by edge, to the one that the lab is read in, those stored after it still
-- lead from that state to some state, edge by edge.
pub deploy-walks :
    (env : Env) (cfg : Config) (id : LabInstanceId) (tr : Trace) {lab : LabInstance} (s : LabState)
    → env.lab_get id tr ≡ gives lab
    → walk s (stored_labs tr) ≡ some lab.state
    → walk s (stored_labs (run env cfg id tr).1) ≢ none
unfolding run deploy
deploy-walks env cfg id tr {lab} s loaded h =
    let read = called (Call.lab_get id) tr in
    elim (Option-cases lab.project_id) [
      | inl e ↦ ground (arith, loaded, e)
      | inr (p, e) ↦ ground (
        arith,
        loaded,
        e,
        λ (d : lab.state ≡ LabState.deploying).
            run_steps_walks env cfg lab s d id (env.uuid_text p) ordered_steps no_handles read
              steps-IsApart,
      )
    ]
