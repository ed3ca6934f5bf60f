-- ===== src/Checks.antt =====
-- internal/app/verify/verify.go: a run of a check is asked for, and executed by a worker.
pub mod Execution
pub mod Asking
mod Tests
use cloud_lab_gateway.Common.{
  ℕ, Bool, true, false, not, Option, none, some, List, [], ◌∷◌, String, ◌⧺◌, if◌then◌else◌,
}
use cloud_lab_gateway.Shared.{
  LabInstanceId, CheckTemplateId, CheckRunId, SecretId, Time, Err, error_text, Outcome, ok, err,
  panic,
}
use cloud_lab_gateway.Lab
use cloud_lab_gateway.Lab.{LabState, LabInstance}
use cloud_lab_gateway.Verify.{
  RunState, CheckRun, StepResult, is_terminal, is_queued, state_text, start, finish,
}
use cloud_lab_gateway.Identity
use cloud_lab_gateway.Requests.{Actor, can_lab}
use cloud_lab_gateway.Ports.{
  Env, Answer, gives, fails, Call, Trace, Entry, Payload, Task, TaskType, CheckTemplate,
  CheckRequest, CheckResult, Action, pure, throw, lift, when, answered, perform, read_clock,
  attempt, wrap, with_tx, ◌>>=◌, ◌>>◌,
}

-- Which collaborators are wired.
pub record Deps : Type 0 where
  pub has_templates : Bool
  pub has_queue : Bool

create_run : Env → CheckRun → Action (Unit {0})
unfolding with_tx
create_run env r = with_tx env (perform (Call.runs_create r) (env.runs_create r))

save_run : Env → CheckRun → Action (Unit {0})
unfolding with_tx
save_run env r = with_tx env (perform (Call.runs_save r) (env.runs_save r))

abbrev pub queued_run : Actor → LabInstance → CheckTemplateId → CheckRunId → CheckRun
queued_run actor lab template id = record {
  id = id;
  lab_instance_id = lab.id;
  check_template_id = template;
  triggered_by = some actor.user_id;
  state = RunState.queued;
  started_at = none;
  finished_at = none;
  summary = "";
  ansible_stdout = "";
  steps = [];
}

abbrev pub check_task : Env → CheckRun → Task
check_task env r = record {
  kind = TaskType.run_check;
  payload = Payload.run_body (env.uuid_text r.id);
  idempotency_key = "check:" ⧺ env.uuid_text r.id ⧺ ":1";
  max_retries = 3;
}

find_template : Env → Deps → CheckTemplateId → Action (Unit {0})
find_template env d template =
    when d.has_templates
      (perform (Call.templates_get template) (env.templates_get template) >> pure tt)

-- A task that cannot be enqueued is logged.
enqueue_check : Env → Deps → CheckRun → Action CheckRun
enqueue_check env d r = do
  when d.has_queue (
      attempt (perform (Call.enqueue (check_task env r)) (env.enqueue (check_task env r)))
      >> pure tt)
  pure r

queue_run : Env → Deps → CheckRun → Action CheckRun
unfolding create_run enqueue_check
queue_run env d r = do create_run env r; enqueue_check env d r

pub run_check : Env → Deps → Actor → LabInstanceId → CheckTemplateId → Action CheckRun
unfolding find_template queue_run
run_check env d actor lab_id template = do
  lab ← perform (Call.lab_get lab_id) (env.lab_get lab_id)
  lift (can_lab actor Identity.Action.check_run lab)
  if not (Lab.same_state lab.state LabState.ready)
      then throw (Err.invalid_transition "lab" (Lab.state_text lab.state) "run_check")
      else (do
        find_template env d template
        λ tr. queue_run env d (queued_run actor lab template (env.fresh_id tr)) tr)

pub get_check_run : Env → Actor → CheckRunId → Action CheckRun
get_check_run env actor id = do
  r ← perform (Call.runs_get id) (env.runs_get id)
  lab ← perform (Call.lab_get r.lab_instance_id) (env.lab_get r.lab_instance_id)
  lift (can_lab actor Identity.Action.lab_read lab)
  pure r

pub list_checks_by_lab : Env → Actor → LabInstanceId → Action (List CheckRun)
list_checks_by_lab env actor id = do
  lab ← perform (Call.lab_get id) (env.lab_get id)
  lift (can_lab actor Identity.Action.lab_read lab)
  perform (Call.runs_list id 50) (env.runs_list id 50)

-- The pair that a method returns, as the value or the error of a call.
abbrev moved_run : CheckRun × Option Err → Action CheckRun
moved_run (r, none) = pure r
moved_run (r, some e) = throw e

begin_queued : Env → CheckRun → Action CheckRun
unfolding start
begin_queued env r =
    if is_queued r.state then (do now ← read_clock env; moved_run (start r now)) else pure r

finish_errored : Env → CheckRun → String → List StepResult → String → Action (Unit {0})
unfolding begin_queued finish save_run
finish_errored env r summary steps stdout = do
  begun ← begin_queued env r
  now ← read_clock env
  done ← moved_run (finish begun RunState.errored summary steps stdout now)
  save_run env done

-- A queued run is stored once it has started.
start_stored : Env → CheckRun → Action CheckRun
unfolding start save_run
start_stored env r =
    if is_queued r.state
    then (do now ← read_clock env; begun ← moved_run (start r now); save_run env begun; pure begun)
    else pure r

-- The runner may return a result beside its error.
call_runner : Env → CheckRequest → Action (CheckResult × Option Err)
call_runner env req tr =
    let (res, e) = env.runner_run req tr in
    (ok (res, e), record { call = Call.runner_run req; error = e } ∷ tr)

-- `if final == "" || !final.IsTerminal() { final = StateErrored }`
unfoldable pub final_state : Option RunState → RunState
final_state none = RunState.errored
final_state (some s) = if is_terminal s then s else RunState.errored

abbrev pub summary_of : RunState → Option Err → String
summary_of final none = state_text final
summary_of final (some e) = error_text e

conclude : Env → CheckRun → CheckResult × Option Err → Action (Unit {0})
unfolding finish save_run final_state
conclude env r (res, e) = do
  now ← read_clock env
  let final = final_state res.state
  done ← moved_run (finish r final (summary_of final e) res.steps res.stdout now)
  save_run env done

abbrev request_of : Env → LabInstance → CheckTemplate → String → List ℕ → CheckRequest
request_of env lab template ip key = record {
  playbook_path = template.playbook_path;
  target_host = ip;
  ssh_user = "ubuntu";
  ssh_private_key = key;
  extra_vars = ("lab_id", env.uuid_text lab.id) ∷ ("check_template", template.slug) ∷ [];
  timeout_seconds = template.timeout_seconds;
}

check_target : Env → CheckRun → LabInstance → String → SecretId → Action (Unit {0})
unfolding start_stored call_runner conclude
check_target env r lab ip secret = do
  template ←
      perform (Call.templates_get r.check_template_id) (env.templates_get r.check_template_id)
  key ←
      perform (Call.secrets_get secret "ssh_private_key" (env.uuid_text lab.id))
        (env.secrets_get secret "ssh_private_key" (env.uuid_text lab.id))
  begun ← start_stored env r
  res ← call_runner env (request_of env lab template ip key)
  conclude env begun res

-- The first address and the key of the lab, if there are any.
with_target : Env → CheckRun → LabInstance → List String → Option SecretId → Action (Unit {0})
unfolding check_target finish_errored
with_target env r lab (ip ∷ _) (some secret) = check_target env r lab ip secret
with_target env r lab _ _ = finish_errored env r "lab is missing target host or checker key" [] ""

execute_live : Env → CheckRun → Action (Unit {0})
unfolding with_target
execute_live env r = do
  lab ← perform (Call.lab_get r.lab_instance_id) (env.lab_get r.lab_instance_id)
  with_target env r lab lab.ki_resources.floating_ips lab.checker_ssh_key_secret_id

pub execute_check : Env → CheckRunId → Action (Unit {0})
unfolding execute_live
execute_check env id = do
  r ← perform (Call.runs_get id) (env.runs_get id)
  if is_terminal r.state then pure tt else execute_live env r

-- json.Unmarshal of a task's body into a TaskPayload, and the identifier in it
run_id_in : Payload → Answer String
run_id_in (Payload.run_body s) = gives s
run_id_in (Payload.lab_body _) = gives ""
run_id_in Payload.no_body = fails (Err.external "unexpected end of JSON input")
run_id_in (Payload.malformed e) = fails e

pub handle_task : Env → Task → Action (Unit {0})
unfolding run_id_in
handle_task env t = do
  text ← wrap "verify: bad task payload" (answered (run_id_in t.payload))
  id ← wrap ("verify: bad check run id \"" ⧺ text ⧺ "\"") (answered (env.uuid_parse text))
  execute_check env id
