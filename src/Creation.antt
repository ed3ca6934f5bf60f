-- ===== src/Creation.antt =====
-- internal/app/lab/create.go: CreateLab, which decides on capacity, rents a project and hands the lab
-- to the deploy saga. The float64 of the quota and the text of a duration are parameters.
pub mod Outcomes
mod Tests
use cloud_lab_gateway.Common.{
  ℕ, Bool, true, false, not, Option, none, some, List, String, ◌⧺◌, if◌then◌else◌,
}
use cloud_lab_gateway.Common.Int.{ℤ, pos, ltb_ℤ}
use cloud_lab_gateway.Shared.{
  UserId, CourseId, LabTemplateId, LabInstanceId, ProjectId, Time, Err, Sentinel, Outcome, ok, err,
  panic,
}
use cloud_lab_gateway.Shared.Errors.{is}
use cloud_lab_gateway.Shared.Quantities.{Float64, ResourceRequest, QuotaSnapshot}
use cloud_lab_gateway.Lab
use cloud_lab_gateway.Lab.{LabState, LabInstance, new, transition, assign_project, pull_events}
use cloud_lab_gateway.Pool
use cloud_lab_gateway.Pool.{Project}
use cloud_lab_gateway.Quota.{Decision, effective_threshold, evaluate}
use cloud_lab_gateway.Ports.{
  Env, Call, Trace, Payload, Task, TaskType, AuditEvent, Course, Action, Handled, value, failed,
  pure, throw, lift, perform, read_clock, attempt, wrap, with_tx, ◌>>=◌, ◌>>◌,
}
use cloud_lab_gateway.Saving.{moved_lab}

pub record CreateInput : Type 0 where
  pub student_user_id : UserId
  pub course_id : CourseId
  pub lab_template_id : LabTemplateId
  pub request_id : String

abbrev pub default_quota_max_age : ℤ
default_quota_max_age = pos 60000000000

-- `if maxAge <= 0 { maxAge = defaultQuotaMaxAge }`
unfoldable pub effective_max_age : ℤ → ℤ
effective_max_age age = if ltb_ℤ (pos 0) age then age else default_quota_max_age

unfoldable pub resource_request_for : LabTemplateId → ResourceRequest
resource_request_for _ = record { vcpus = pos 2; ram_mb = pos 4096; disk_gb = pos 20 }

abbrev pub quota_blocked : Env → CreateInput → Time → String → Option String → Trace → AuditEvent
quota_blocked env input now subject subject_id tr = record {
  id = env.fresh_id tr;
  kind = "quota.blocked";
  actor_user_id = some input.student_user_id;
  subject_type = subject;
  subject_id = subject_id;
  request_id = input.request_id;
  occurred_at = now;
}

-- A failure to append is logged.
append_audit : Env → (Trace → AuditEvent) → Action (Unit {0})
append_audit env ev tr =
    (attempt (perform (Call.audit_append (ev tr)) (env.audit_append (ev tr))) >> pure tt) tr

append_audit_tx : Env → (Trace → AuditEvent) → Action (Unit {0})
append_audit_tx env ev tr =
    (attempt (perform (Call.audit_append_in_tx (ev tr)) (env.audit_append_in_tx (ev tr)))
        >> pure tt)
      tr

-- A missing lab is none; any other error of the lookup is wrapped.
found_active : Handled (Option LabInstance) → Action (Option LabInstance)
found_active (value a) = pure a
found_active (failed e) =
    if is e Sentinel.not_found then pure none else throw (Err.wrapped "check active lab" e)

refuse_active : Option LabInstance → Action (Unit {0})
refuse_active none = pure tt
refuse_active (some _) = throw (Err.sentinel Sentinel.lab_already_active)

-- `Lab.Create` and `Lab.Save` inside a transaction, which flush the events.
pub create_in_tx : Env → LabInstance → Action LabInstance
unfolding pull_events
create_in_tx env l = do perform (Call.lab_create l) (env.lab_create l); pure (pull_events l).0

pub save_lab_in_tx : Env → LabInstance → Action LabInstance
unfolding pull_events
save_lab_in_tx env l = do perform (Call.lab_save l) (env.lab_save l); pure (pull_events l).0

pub save_project_in_tx : Env → Project → Action Project
unfolding Pool.pull_events
save_project_in_tx env p = do
  perform (Call.pool_save p) (env.pool_save p)
  pure (Pool.pull_events p).0

-- The rejected lab is committed; `none` tells that the pool was empty.
reject : Env → CreateInput → Time → LabInstance → Action (Option LabInstance)
unfolding transition save_lab_in_tx append_audit_tx
reject env input now inst = do
  l ← moved_lab (transition inst LabState.rejected "pool_empty" now)
  l' ← wrap "save rejected lab" (save_lab_in_tx env l)
  append_audit_tx env (quota_blocked env input now "lab_instance" (some (env.uuid_text l'.id)))
  pure none

assign : Env → Time → LabInstance → Project → Action (Option LabInstance)
unfolding assign_project save_lab_in_tx save_project_in_tx
assign env now inst proj = do
  l ← moved_lab (assign_project inst proj.id now)
  l' ← wrap "save lab" (save_lab_in_tx env l)
  wrap "save project" (save_project_in_tx env proj)
  pure (some l')

-- How the answer of `AllocateOneFree` goes on.
settle_allocation :
    Env → CreateInput → Time → LabInstance → Handled Project → Action (Option LabInstance)
unfolding reject assign
settle_allocation env input now inst (value proj) = assign env now inst proj
settle_allocation env input now inst (failed e) =
    if is e Sentinel.pool_empty
    then reject env input now inst
    else throw (Err.wrapped "allocate project" e)

pub fresh_lab : Env → CreateInput → Time → Trace → LabInstance
unfolding new
fresh_lab env input now tr =
    new (env.fresh_id tr) input.student_user_id input.course_id input.lab_template_id now

rent : Env → CreateInput → Time → Course → LabInstance → Action (Option LabInstance)
unfolding settle_allocation
rent env input now course inst = do
  allocated ← attempt (
      perform (Call.pool_allocate course.ki_domain_id inst.id)
        (env.pool_allocate course.ki_domain_id inst.id))
  settle_allocation env input now inst allocated

persist : Env → CreateInput → Time → Course → LabInstance → Action (Option LabInstance)
unfolding create_in_tx rent
persist env input now course inst = do
  inst' ← wrap "persist lab" (create_in_tx env inst)
  rent env input now course inst'

-- The part of the transaction that writes.
place : Env → CreateInput → Time → Course → Action (Option LabInstance)
unfolding transition fresh_lab persist
place env input now course tr =
    (moved_lab (transition (fresh_lab env input now tr) LabState.pending_project "quota_ok" now)
        >>= persist env input now course)
      tr

-- The body of the transaction.
pub allocate : Env → CreateInput → Time → Action (Option LabInstance)
unfolding found_active refuse_active place
allocate env input now = do
  course ←
      wrap "resolve course"
        (perform (Call.courses_get input.course_id) (env.courses_get input.course_id))
  looked ← attempt (
      perform (Call.lab_find_active input.student_user_id input.course_id)
        (env.lab_find_active input.student_user_id input.course_id))
  active ← found_active looked
  refuse_active active
  place env input now course

abbrev pub deploy_task : Env → LabInstance → Task
deploy_task env lab = record {
  kind = TaskType.deploy_lab;
  payload = Payload.lab_body (env.uuid_text lab.id);
  idempotency_key = "deploy:" ⧺ env.uuid_text lab.id ⧺ ":1";
  max_retries = 5;
}

-- A task that cannot be enqueued is logged.
hand_off : Env → Option LabInstance → Action LabInstance
hand_off env none = throw (Err.sentinel Sentinel.pool_empty)
hand_off env (some lab) = do
  attempt (perform (Call.enqueue (deploy_task env lab)) (env.enqueue (deploy_task env lab)))
  pure lab

abbrev pub refresh_task : Task
refresh_task = record {
  kind = TaskType.refresh_quota;
  payload = Payload.no_body;
  idempotency_key = "";
  max_retries = 0;
}

stale : Env → String → Action LabInstance
stale env age = do
  attempt (perform (Call.enqueue refresh_task) (env.enqueue refresh_task))
  throw (
      Err.wrapped ("create lab: quota snapshot stale (age " ⧺ age ⧺ ")")
        (Err.sentinel Sentinel.cloud_unavailable))

blocked : Env → CreateInput → Time → Action LabInstance
unfolding append_audit
blocked env input now = do
  append_audit env
      (quota_blocked env input now "lab_template" (some (env.uuid_text input.lab_template_id)))
  throw (Err.sentinel Sentinel.quota_exceeded)

admit : Env → CreateInput → Time → Action LabInstance
unfolding allocate hand_off
admit env input now = do created ← with_tx env (allocate env input now); hand_off env created

module _ (float : Float64) (duration_text : ℤ → String) where
  open float use {F}

  pub record Settings : Type 0 where
    pub quota_threshold_pct : F
    pub quota_max_age : ℤ

  pub decide : Env → Settings → CreateInput → Time → QuotaSnapshot × ℤ → Action LabInstance
  unfolding stale blocked admit evaluate effective_max_age
  decide env cfg input now (snap, age) =
      if ltb_ℤ (effective_max_age cfg.quota_max_age) age
      then stale env (duration_text age)
      else if not
          (evaluate float snap (resource_request_for input.lab_template_id)
            (effective_threshold float cfg.quota_threshold_pct)).allowed
      then blocked env input now
      else admit env input now

  pub create_lab : Env → Settings → CreateInput → Action LabInstance
  unfolding decide
  create_lab env cfg input = do
    now ← read_clock env
    read ← wrap "create lab: read quota cache" (perform Call.quota_read env.quota_read)
    decide env cfg input now read
