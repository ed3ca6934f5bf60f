-- ===== src/Checks/Execution.antt =====
-- internal/app/verify/verify.go, ExecuteCheck: what is stored of a run, whatever the ports answer.
use cloud_lab_gateway.Common.{
  ◌≡◌, ◌≢◌, refl, ◌⊎◌, inl, inr, true, false, Option, none, some, List, [], ◌∷◌, String, arith,
}
use cloud_lab_gateway.Shared.{CheckRunId, SecretId, Err, Outcome, Outcome-cases, ok, err, panic}
use cloud_lab_gateway.Lab.{LabInstance}
use cloud_lab_gateway.Verify.{RunState, CheckRun, StepResult, is_terminal, start, finish}
use cloud_lab_gateway.Verify.Runs.{IsTimed}
use cloud_lab_gateway.Ports.{Env, Call, Trace, CheckResult, CheckRequest, Answer-cases, gives}
use cloud_lab_gateway.Ports.Traces.{called, stored_runs}
use cloud_lab_gateway.Saving.{Holds}
use cloud_lab_gateway.Checks.{
  save_run, finish_errored, start_stored, conclude, call_runner, check_target, with_target,
  execute_live, execute_check, final_state, summary_of, request_of,
}

-- The same run, whose times are in step with its state.
pub record IsRunOf (r : CheckRun) (d : CheckRun) : Type 0 where
  pub id : d.id ≡ r.id
  pub lab : d.lab_instance_id ≡ r.lab_instance_id
  pub template : d.check_template_id ≡ r.check_template_id
  pub timed : IsTimed d

-- What was stored before the runner answered: nothing, or the run as it started.
abbrev pub Begun : CheckRun → List CheckRun → List CheckRun → Type 0
Begun r old [] = old ≡ []
Begun r old (b ∷ rest) =
    (b ∷ rest ≡ old) ⊎ ((rest ≡ old) × (b.state ≡ RunState.running) × IsRunOf r b)

-- The run was stored last, once it had ended.
abbrev pub Ended : CheckRun → List CheckRun → List CheckRun → Type 0
Ended r old [] = ⊥
Ended r old (d ∷ rest) = (is_terminal d.state ≡ true) × IsRunOf r d × Begun r old rest

Begun-same : (r : CheckRun) (old : List CheckRun) → Begun r old old
Begun-same r [] = refl
Begun-same r (b ∷ rest) = inl refl

abbrev run_if : Outcome (Unit {0}) → CheckRun → List CheckRun → List CheckRun
run_if (ok _) r rs = r ∷ rs
run_if _ r rs = rs

save_run_lem :
    (env : Env) (r : CheckRun) (tr : Trace)
    → let (o, tr') = save_run env r tr in
      (o ≢ panic) × (stored_runs tr' ≡ run_if o r (stored_runs tr))
unfolding save_run
save_run_lem env r tr = (ground arith, ground arith)

-- What an execution has stored, told from how it ends.
abbrev pub Executed : CheckRun → List CheckRun → List CheckRun → Outcome (Unit {0}) → Type 0
Executed r old new (ok _) = Ended r old new
Executed r old new (err _) = Begun r old new
Executed r old new panic = ⊥

module _ (env : Env) (r : CheckRun) (timed : IsTimed r) (live : is_terminal r.state ≡ false) where
  finish_errored_lem :
      (summary : String) (steps : List StepResult) (stdout : String) (tr : Trace)
      → let (o, tr') = finish_errored env r summary steps stdout tr in
        Executed r (stored_runs tr) (stored_runs tr') o
  unfolding finish_errored
  finish_errored_lem summary steps stdout tr =
      let now = env.now tr in
      let later = called Call.clock_now tr in
      let begun = (start r now).0 in
      let done = (finish begun RunState.errored summary steps stdout (env.now later)).0 in
      let done' = (finish r RunState.errored summary steps stdout now).0 in
      ground (
        arith,
        Begun-same r (stored_runs tr),
        save_run_lem env done (called Call.clock_now later),
        save_run_lem env done' later,
      )

  -- The run that goes to the runner, and what was stored of it.
  start_stored_lem :
      (tr : Trace)
      → let (o, tr') = start_stored env r tr in
        (o ≢ panic)
        × Begun r (stored_runs tr) (stored_runs tr')
        × Holds (λ b. (b.state ≡ RunState.running) × IsRunOf r b) o
  unfolding start_stored
  start_stored_lem tr =
      let saved = save_run_lem env (start r (env.now tr)).0 (called Call.clock_now tr) in
      let same = Begun-same r (stored_runs tr) in
      (ground (arith, saved), ground (arith, saved, same), ground (arith, saved))

  conclude_lem :
      (b : CheckRun) (res : CheckResult × Option Err) (old : List CheckRun) (tr : Trace)
      → b.state ≡ RunState.running
      → IsRunOf r b
      → Begun r old (stored_runs tr)
      → let (o, tr') = conclude env b res tr in Executed r old (stored_runs tr') o
  unfolding conclude
  conclude_lem b (res, e) old tr s same begun =
      let now = env.now tr in
      let final = final_state res.state in
      let done = (finish b final (summary_of final e) res.steps res.stdout now).0 in
      ground (arith, save_run_lem env done (called Call.clock_now tr))

  abbrev run_checker : CheckRequest → Trace → (CheckResult × Option Err) × Trace
  run_checker req tr =
      let (res, e) = env.runner_run req tr in
      ((res, e), record { call = Call.runner_run req; error = e } ∷ tr)

  check_target_lem :
      (lab : LabInstance) (ip : String) (secret : SecretId) (tr : Trace)
      → let (o, tr') = check_target env r lab ip secret tr in
        Executed r (stored_runs tr) (stored_runs tr') o
  unfolding check_target call_runner
  check_target_lem lab ip secret tr =
      let asked = called (Call.templates_get r.check_template_id) tr in
      elim (Answer-cases (env.templates_get r.check_template_id tr)) [
        | inl (template, e) ↦
            let kept = env.secrets_get secret "ssh_private_key" (env.uuid_text lab.id) asked in
            elim (Answer-cases kept) [
              | inl (key, e') ↦
                  let ready =
                    called (Call.secrets_get secret "ssh_private_key" (env.uuid_text lab.id))
                      asked in
                  let (o, mid) = start_stored env r ready in
                  let s = start_stored_lem ready in
                  elim (Outcome-cases o) [
                    | inl (b, e'') ↦
                        let (res, ran) = run_checker (request_of env lab template ip key) mid in
                        ground (arith, e, e', e'', s, conclude_lem b res (stored_runs tr) ran)
                    | inr (inl (x, e'')) ↦ ground (arith, e, e', e'', s)
                    | inr (inr e'') ↦ absurd (s.0 e'')
                  ]
              | inr (x, e') ↦ ground (arith, e, e', Begun-same r (stored_runs tr))
            ]
        | inr (x, e) ↦ ground (arith, e, Begun-same r (stored_runs tr))
      ]

  with_target_lem :
      (lab : LabInstance) (ips : List String) (secret : Option SecretId) (tr : Trace)
      → let (o, tr') = with_target env r lab ips secret tr in
        Executed r (stored_runs tr) (stored_runs tr') o
  unfolding with_target
  with_target_lem lab [] secret tr =
      finish_errored_lem "lab is missing target host or checker key" [] "" tr
  with_target_lem lab (ip ∷ ips) none tr =
      finish_errored_lem "lab is missing target host or checker key" [] "" tr
  with_target_lem lab (ip ∷ ips) (some secret) tr = check_target_lem lab ip secret tr

  execute_live_lem :
      (tr : Trace)
      → let (o, tr') = execute_live env r tr in Executed r (stored_runs tr) (stored_runs tr') o
  unfolding execute_live
  execute_live_lem tr = elim (Answer-cases (env.lab_get r.lab_instance_id tr)) [
    | inl (lab, e) ↦ ground (
      arith,
      e,
      with_target_lem lab lab.ki_resources.floating_ips lab.checker_ssh_key_secret_id
          (called (Call.lab_get r.lab_instance_id) tr),
    )
    | inr (x, e) ↦ ground (arith, e, Begun-same r (stored_runs tr))
  ]

-- An execution of a run that has not ended, and whose times are in step with its state, does not
-- panic. Where it returns no error, that run was stored last in a terminal state, with its times in
-- step, after at most one more store of it in `running`. Where it returns an error, at most that one
-- store in `running` was made.
pub execute_check-Executed :
    (env : Env) (id : CheckRunId) (tr : Trace) {r : CheckRun}
    → env.runs_get id tr ≡ gives r
    → IsTimed r
    → is_terminal r.state ≡ false
    → let (o, tr') = execute_check env id tr in Executed r (stored_runs tr) (stored_runs tr') o
unfolding execute_check
execute_check-Executed env id tr {r} loaded timed live =
    ground (arith, loaded, execute_live_lem env r timed live (called (Call.runs_get id) tr))

-- A run that has ended is not executed again: the one call made is the one that reads it.
pub execute_check_ended :
    (env : Env) (id : CheckRunId) (tr : Trace) {r : CheckRun}
    → env.runs_get id tr ≡ gives r
    → is_terminal r.state ≡ true
    → execute_check env id tr ≡ (ok tt, called (Call.runs_get id) tr)
unfolding execute_check
execute_check_ended env id tr loaded ended = ground (arith, loaded)
