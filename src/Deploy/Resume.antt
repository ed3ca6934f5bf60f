-- ===== src/Deploy/Resume.antt =====
-- internal/app/deploy/saga.go, Run and succeed: what a finished step is worth when the task is
-- delivered again, and what a finished deploy leaves on the lab.
use cloud_lab_gateway.Common.{
  ℕ, suc, ◌≡◌, ◌≢◌, inl, inr, Option-cases, some, List, [], ◌∷◌, String, arith, eq_iff,
}
use cloud_lab_gateway.Common.Int.{◌+ℤ◌}
use cloud_lab_gateway.Shared.{LabInstanceId, Outcome-cases, panic}
use cloud_lab_gateway.Lab.{LabState, LabInstance, can_transition, mark_ready}
use cloud_lab_gateway.Ports.{
  Env, Call, Trace, Answer, Answer-cases, gives, fails, DeployState, DeployStep,
}
use cloud_lab_gateway.Ports.Traces.{called, stored_labs}
use cloud_lab_gateway.Saving.{Holds, save_lab, save_lab_lem}
use cloud_lab_gateway.Cleanup.Stages.{Last}
use cloud_lab_gateway.Deploy.{
  Config, SagaStep, continues, stops, ordered_steps, succeed, with_handles, run_step, run_steps,
  deploy, run, no_handles,
}
use cloud_lab_gateway.Deploy.Topology.{cleanup_after}

abbrev one_more : Call → ℕ → ℕ
one_more (Call.create_keypair _ _) n = suc n
one_more (Call.secrets_put _ _ _) n = suc n
one_more (Call.create_network _ _) n = suc n
one_more (Call.boot_server _ _) n = suc n
one_more (Call.allocate_floating_ip _ _) n = suc n
one_more _ n = n

-- How many calls of a history ask the cloud or the secret store for something new.
abbrev pub creations : Trace → ℕ
creations [] = 0
creations (e ∷ tr) = one_more e.call (creations tr)

-- A step's record says that the step succeeded.
abbrev pub IsRecorded : Answer DeployStep → Type 0
IsRecorded (gives rec) = rec.status ≡ "succeeded"
IsRecorded (fails _) = ⊥

save_lab-creations :
    (env : Env) (lab : LabInstance) (tr : Trace) → creations (save_lab env lab tr).1 ≡ creations tr
unfolding save_lab
save_lab-creations env lab tr = ground arith

succeed-creations :
    (env : Env) (cfg : Config) (lab : LabInstance) (st : DeployState) (tr : Trace)
    → creations (succeed env cfg lab st tr).1 ≡ creations tr
unfolding succeed can_transition
succeed-creations env cfg lab st tr =
    let now = env.now tr in
    let l = (mark_ready (with_handles env lab st) (now +ℤ cleanup_after cfg) now).0 in
    ground (arith, save_lab-creations env l (called Call.clock_now tr))

module _ (env : Env) (cfg : Config) (id : LabInstanceId) (project : String) (lab : LabInstance)
    (recorded : (name : String) (tr : Trace) → IsRecorded (env.steps_get id name tr)) where
  run_step-creations :
      (step : SagaStep) (st : DeployState) (tr : Trace)
      → creations (run_step env cfg id project lab step st tr).1 ≡ creations tr
  unfolding run_step
  run_step-creations step st tr = elim (Answer-cases (env.steps_get id step.name tr)) [
    | inl (rec, e) ↦
        let done : IsRecorded (gives rec) = rw e at (recorded step.name tr) in
        ground (arith, e, done, eq_iff rec.status "succeeded")
    | inr (x, e) ↦ let bad : IsRecorded (fails x) = rw e at (recorded step.name tr) in absurd bad
  ]

  run_steps-creations :
      (steps : List SagaStep) (st : DeployState) (tr : Trace)
      → creations (run_steps env cfg id project lab steps st tr).1 ≡ creations tr
  unfolding run_steps
  run_steps-creations [] st tr = succeed-creations env cfg lab st tr
  run_steps-creations (step ∷ steps) st tr =
      let (o, mid) = run_step env cfg id project lab step st tr in
      let here = run_step-creations step st tr in
      elim (Outcome-cases o) [
        | inl (stops, e) ↦ ground (arith, e, here)
        | inl (continues st', e) ↦ ground (arith, e, here, run_steps-creations steps st' mid)
        | inr (inl (x, e)) ↦ ground (arith, e, here)
        | inr (inr e) ↦ ground (arith, e, here)
      ]

-- Where the record of every step says that it succeeded, a run asks the cloud and the secret store
-- for nothing new.
pub run-creations :
    (env : Env) (cfg : Config) (id : LabInstanceId) (tr : Trace)
    → ((name : String) (tr : Trace) → IsRecorded (env.steps_get id name tr))
    → creations (run env cfg id tr).1 ≡ creations tr
unfolding run deploy
run-creations env cfg id tr recorded = elim (Answer-cases (env.lab_get id tr)) [
  | inl (lab, e) ↦ elim (Option-cases lab.project_id) [
    | inl n ↦ ground (arith, e, n)
    | inr (p, n) ↦ ground (
      arith,
      e,
      n,
      run_steps-creations env cfg id (env.uuid_text p) lab recorded ordered_steps no_handles
          (called (Call.lab_get id) tr),
    )
  ]
  | inr (x, e) ↦ ground (arith, e)
]

-- What a finished deploy leaves on the lab: it is ready, it names every handle of the steps, and its
-- cleanup is due after the configured time.
pub record IsDeployed (env : Env) (cfg : Config) (st : DeployState) (tr : Trace) (l : LabInstance)
    : Type 0 where
  pub ready : l.state ≡ LabState.ready
  pub servers : l.ki_resources.server_ids ≡ st.server_ids
  pub network : l.ki_resources.network_id ≡ st.network_id
  pub ips : l.ki_resources.floating_ips ≡ st.floating_ips
  pub keypair : l.ki_resources.keypair_name ≡ st.keypair_name
  pub due : l.cleanup_at ≡ some (env.now tr +ℤ cleanup_after cfg)

-- Where a deploy whose steps are done, on a lab in `deploying`, returns no error, the lab stored last
-- is ready, names the servers, the network, the addresses and the keypair of the steps, and is due
-- for cleanup after the configured time; it does not panic.
pub succeed-IsDeployed :
    (env : Env) (cfg : Config) (lab : LabInstance) (st : DeployState) (tr : Trace)
    → lab.state ≡ LabState.deploying
    → let (r, tr') = succeed env cfg lab st tr in
      (r ≢ panic) × Holds (λ _. Last (IsDeployed env cfg st tr) (stored_labs tr')) r
unfolding succeed can_transition with_handles
succeed-IsDeployed env cfg lab st tr d =
    let now = env.now tr in
    let l = (mark_ready (with_handles env lab st) (now +ℤ cleanup_after cfg) now).0 in
    let saved = save_lab_lem env l (called Call.clock_now tr) in
    (ground (arith, saved), ground (arith, saved))
