-- ===== src/Verify.antt =====
-- internal/domain/verify/run.go: a run of a check.
pub mod Runs
mod Tests
use cloud_lab_gateway.Common.{
  Bool, true, false, not, Option, none, some, List, String, if◌then◌else◌,
}
use cloud_lab_gateway.Shared.{
  UserId, LabInstanceId, CheckTemplateId, CheckRunId, Time, Err, Sentinel,
}

pub data RunState : Type 0 where
  queued running passed failed timeout errored : RunState

unfoldable pub state_text : RunState → String
state_text RunState.queued = "queued"
state_text RunState.running = "running"
state_text RunState.passed = "passed"
state_text RunState.failed = "failed"
state_text RunState.timeout = "timeout"
state_text RunState.errored = "errored"

abbrev pub is_terminal : RunState → Bool
is_terminal RunState.queued = false
is_terminal RunState.running = false
is_terminal _ = true

abbrev pub is_queued : RunState → Bool
is_queued RunState.queued = true
is_queued _ = false

abbrev pub is_running : RunState → Bool
is_running RunState.running = true
is_running _ = false

pub data StepStatus : Type 0 where
  ok changed failed unreachable skipped : StepStatus

-- The fields `Expected` and `Actual`, of any JSON type, are written by nothing and are left out.
pub record StepResult : Type 0 where
  pub task_name : String
  pub status : StepStatus
  pub message : String

pub record CheckRun : Type 0 where
  pub id : CheckRunId
  pub lab_instance_id : LabInstanceId
  pub check_template_id : CheckTemplateId
  pub triggered_by : Option UserId
  pub state : RunState
  pub started_at : Option Time
  pub finished_at : Option Time
  pub summary : String
  pub ansible_stdout : String
  pub steps : List StepResult

unfoldable pub start : CheckRun → Time → CheckRun × Option Err
start r now =
    if not (is_queued r.state)
    then (
      r,
      some (Err.invalid_transition "check_run" (state_text r.state) (state_text RunState.running)),
    )
    else (record r { state = RunState.running; started_at = some now }, none)

unfoldable pub finish :
    CheckRun → RunState → String → List StepResult → String → Time → CheckRun × Option Err
finish r final summary steps stdout now =
    if not (is_running r.state)
    then (r, some (Err.invalid_transition "check_run" (state_text r.state) (state_text final)))
    else if not (is_terminal final)
    then (r, some (Err.sentinel Sentinel.invalid_input))
    else (
      record r {
        state = final;
        summary = summary;
        steps = steps;
        ansible_stdout = stdout;
        finished_at = some now;
      },
      none,
    )
