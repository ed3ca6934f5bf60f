-- ===== src/Ports/Answers.antt =====
-- internal/ports: the answers of everything behind the ports, as functions of the history.
use cloud_lab_gateway.Common.{◌≡◌, refl, ◌⊎◌, inl, inr, ℕ, Option, List, String}
use cloud_lab_gateway.Common.Int.{ℤ}
use cloud_lab_gateway.Shared.{
  UserId, CourseId, ProjectId, LabInstanceId, SecretId, CheckRunId, CheckTemplateId, Time, Err,
}
use cloud_lab_gateway.Shared.Quantities.{QuotaSnapshot}
use cloud_lab_gateway.Lab.{LabInstance}
use cloud_lab_gateway.Pool.{Project, ProjectState}
use cloud_lab_gateway.Verify.{CheckRun}
use cloud_lab_gateway.Ports.Calls.{
  Trace, Task, LabListFilter, Keypair, NetworkSpec, ServerSpec, DeployStep, CheckTemplate,
  CheckRequest, CheckResult, AuditEvent, Course, Setting, AuditFilter,
}

-- What a call behind a port returns.
pub data Answer {ℓ} (A : Type ℓ) : Type ℓ where
  gives : A → Answer A
  fails : Err → Answer A

pub Answer-cases {ℓ} :
    {A : Type ℓ} (a : Answer A) → ((x : A) × (a ≡ gives x)) ⊎ ((e : Err) × (a ≡ fails e))
Answer-cases (gives x) = inl (x, refl)
Answer-cases (fails e) = inr (e, refl)

abbrev pub Done : Type 0
Done = Answer (Unit {0})

pub record Env : Type 0 where
  pub now : Trace → Time
  -- package uuid: a fresh identifier, its text, and the identifier that a text stands for
  pub fresh_id : Trace → ℕ
  pub uuid_text : ℕ → String
  pub uuid_parse : String → Answer ℕ
  pub tx_begin : Trace → Done
  pub tx_commit : Trace → Done
  pub lab_get : LabInstanceId → Trace → Answer LabInstance
  pub lab_find_active : UserId → CourseId → Trace → Answer (Option LabInstance)
  pub lab_list : LabListFilter → Trace → Answer (List LabInstance)
  pub lab_create : LabInstance → Trace → Done
  pub lab_save : LabInstance → Trace → Done
  pub pool_get : ProjectId → Trace → Answer Project
  pub pool_allocate : String → LabInstanceId → Trace → Answer Project
  pub pool_save : Project → Trace → Done
  pub pool_list : String → Option ProjectState → Trace → Answer (List Project)
  pub settings_list : String → Option String → Trace → Answer (List Setting)
  pub settings_put : Setting → Trace → Done
  pub audit_query : AuditFilter → Trace → Answer (List AuditEvent)
  -- the snapshot of the cloud, and its entry in the cache
  pub quota_snapshot : Trace → Answer QuotaSnapshot
  pub quota_write : QuotaSnapshot → Trace → Done
  pub steps_get : LabInstanceId → String → Trace → Answer DeployStep
  pub steps_save : DeployStep → Trace → Done
  pub steps_list : LabInstanceId → Trace → Answer (List DeployStep)
  pub courses_get : CourseId → Trace → Answer Course
  pub runs_get : CheckRunId → Trace → Answer CheckRun
  pub runs_create : CheckRun → Trace → Done
  pub runs_save : CheckRun → Trace → Done
  pub runs_list : LabInstanceId → ℕ → Trace → Answer (List CheckRun)
  pub templates_get : CheckTemplateId → Trace → Answer CheckTemplate
  -- the snapshot and its age
  pub quota_read : Trace → Answer (QuotaSnapshot × ℤ)
  pub audit_append : AuditEvent → Trace → Done
  pub audit_append_in_tx : AuditEvent → Trace → Done
  pub enqueue : Task → Trace → Done
  pub enqueue_at : Task → Time → Trace → Done
  pub secrets_put : String → String → List ℕ → Trace → Answer SecretId
  pub secrets_get : SecretId → String → String → Trace → Answer (List ℕ)
  pub secrets_delete : SecretId → Trace → Done
  -- a runner may return a result beside its error
  pub runner_run : CheckRequest → Trace → CheckResult × Option Err
  pub create_keypair : String → String → Trace → Answer Keypair
  pub delete_keypair : String → String → Trace → Done
  pub create_network : String → NetworkSpec → Trace → Answer String
  pub delete_network : String → String → Trace → Done
  pub boot_server : String → ServerSpec → Trace → Answer String
  pub wait_for_active : String → String → Trace → Done
  pub allocate_floating_ip : String → String → Trace → Answer String
  pub delete_server : String → String → Trace → Done
