-- ===== src/Ports/Calls.antt =====
-- internal/ports: the messages that cross the ports, and a call as an entry of a history.
use cloud_lab_gateway.Common.{ℕ, Option, List, String}
use cloud_lab_gateway.Common.Int.{ℤ}
use cloud_lab_gateway.Shared.{
  UserId, CourseId, ProjectId, LabInstanceId, SecretId, CheckRunId, CheckTemplateId, Time, Err,
}
use cloud_lab_gateway.Shared.Quantities.{QuotaSnapshot}
use cloud_lab_gateway.Lab.{LabState, LabInstance}
use cloud_lab_gateway.Pool.{Project, ProjectState}
use cloud_lab_gateway.Verify.{CheckRun, RunState, StepResult}

-- The JSON body of a task, as the source writes it; `malformed` is a body that does not decode.
pub data Payload : Type 0 where
  lab_body : String → Payload
  run_body : String → Payload
  no_body : Payload
  malformed : Err → Payload

pub data TaskType : Type 0 where
  deploy_lab cleanup_lab run_check refresh_quota unfreeze_lab : TaskType

pub record Task : Type 0 where
  pub kind : TaskType
  pub payload : Payload
  pub idempotency_key : String
  pub max_retries : ℕ

pub record Keypair : Type 0 where
  pub name : String
  pub public_key : String
  pub private_key : List ℕ
  pub fingerprint : String

pub record NetworkSpec : Type 0 where
  pub name : String
  pub cidr : String

-- `metadata` lists the pairs of the map.
pub record ServerSpec : Type 0 where
  pub name : String
  pub image_ref : String
  pub flavor_ref : String
  pub network_id : String
  pub keypair_name : String
  pub user_data : String
  pub metadata : List (String × String)

-- The handles that the deploy saga writes to its step records, as JSON.
pub record DeployState : Type 0 where
  pub keypair_name : String
  pub key_secret_id : String
  pub network_id : String
  pub server_ids : List String
  pub floating_ips : List String
  pub initial_check : String

-- The bytes of a step's result: none, an encoded state, or bytes that do not decode.
pub data StepBytes : Type 0 where
  empty : StepBytes
  encoded : DeployState → StepBytes
  garbled : Err → StepBytes

pub record DeployStep : Type 0 where
  pub lab_id : LabInstanceId
  pub step_name : String
  pub status : String
  pub attempt : ℕ
  pub last_error : String
  pub result : StepBytes
  pub started_at : Option Time
  pub finished_at : Option Time

pub record CheckTemplate : Type 0 where
  pub id : CheckTemplateId
  pub slug : String
  pub name : String
  pub playbook_path : String
  pub timeout_seconds : ℤ

pub record CheckRequest : Type 0 where
  pub playbook_path : String
  pub target_host : String
  pub ssh_user : String
  pub ssh_private_key : List ℕ
  pub extra_vars : List (String × String)
  pub timeout_seconds : ℤ

pub record AnsibleStats : Type 0 where
  pub ok : ℤ
  pub changed : ℤ
  pub failed : ℤ
  pub unreachable : ℤ
  pub skipped : ℤ

-- `state` is `none` for the empty text.
pub record CheckResult : Type 0 where
  pub state : Option RunState
  pub steps : List StepResult
  pub stats : AnsibleStats
  pub stdout : String

-- The fields of an audit event that the use cases fill, but its payload.
pub record AuditEvent : Type 0 where
  pub id : ℕ
  pub kind : String
  pub actor_user_id : Option UserId
  pub subject_type : String
  pub subject_id : Option String
  pub request_id : String
  pub occurred_at : Time

pub record Setting : Type 0 where
  pub key : String
  pub value : List ℕ
  pub scope : String
  pub scope_id : Option String
  pub updated_by_user : UserId
  pub updated_at : Time

pub record AuditFilter : Type 0 where
  pub kind : Option String
  pub actor_user_id : Option UserId
  pub since : Option Time
  pub limit : ℤ

pub record Course : Type 0 where
  pub id : CourseId
  pub external_id : String
  pub name : String
  pub ki_domain_id : String

-- The filter of the list of labs; an empty list or an absent identifier filters nothing.
pub record LabListFilter : Type 0 where
  pub student_user_id : Option UserId
  pub course_id : Option CourseId
  pub course_ids : List CourseId
  pub states : List LabState
  pub limit : ℕ

pub data Call : Type 0 where
  clock_now tx_begin tx_commit tx_rollback quota_read quota_snapshot : Call
  lab_get : LabInstanceId → Call
  lab_find_active : UserId → CourseId → Call
  lab_list : LabListFilter → Call
  lab_create lab_save : LabInstance → Call
  pool_get : ProjectId → Call
  pool_allocate : String → LabInstanceId → Call
  pool_save : Project → Call
  pool_list : String → Option ProjectState → Call
  settings_list : String → Option String → Call
  settings_put : Setting → Call
  audit_query : AuditFilter → Call
  quota_write : QuotaSnapshot → Call
  steps_get : LabInstanceId → String → Call
  steps_save : DeployStep → Call
  steps_list : LabInstanceId → Call
  courses_get : CourseId → Call
  runs_get : CheckRunId → Call
  runs_create runs_save : CheckRun → Call
  runs_list : LabInstanceId → ℕ → Call
  templates_get : CheckTemplateId → Call
  audit_append audit_append_in_tx : AuditEvent → Call
  enqueue : Task → Call
  enqueue_at : Task → Time → Call
  secrets_put : String → String → List ℕ → Call
  secrets_get : SecretId → String → String → Call
  secrets_delete : SecretId → Call
  runner_run : CheckRequest → Call
  create_keypair delete_keypair : String → String → Call
  create_network : String → NetworkSpec → Call
  delete_network : String → String → Call
  boot_server : String → ServerSpec → Call
  wait_for_active allocate_floating_ip delete_server : String → String → Call

-- A call with the error that it returned, if any.
pub record Entry : Type 0 where
  pub call : Call
  pub error : Option Err

-- The calls made so far, the last one first.
abbrev pub Trace : Type 0
Trace = List Entry
