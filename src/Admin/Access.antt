-- ===== src/Admin/Access.antt =====
-- internal/app/admin/admin.go: who may ask for what, over all operations.
use cloud_lab_gateway.Common.{length, ◌<◌, ◌≡◌, ℕ, Bool, true, false, Option, List, String, arith}
use cloud_lab_gateway.Shared.{ProjectId, Err, Sentinel, err}
use cloud_lab_gateway.Pool.{ProjectState}
use cloud_lab_gateway.Identity.{Role}
use cloud_lab_gateway.Ports.{Env, Trace, AuditFilter, Action, pure, ◌>>◌}
use cloud_lab_gateway.Admin.{
  Actor, PutSettingInput, list_projects, quarantine_project, release_project, get_quota,
  list_settings, put_setting, query_audit,
}

pub data Operation : Type 0 where
  list_the_projects : String → Option ProjectState → Operation
  quarantine_one : ProjectId → String → Operation
  release_one : ProjectId → Operation
  read_quota : Operation
  list_the_settings : String → Option String → Operation
  put_one_setting : String → List ℕ → String → Option String → Operation
  search_audit : AuditFilter → Operation

abbrev pub setting_input : Actor → String → List ℕ → String → Option String → PutSettingInput
setting_input actor key value scope scope_id = record {
  actor = actor;
  key = key;
  value = value;
  scope = scope;
  scope_id = scope_id;
}

-- An operation of the actor, less its result.
abbrev pub operate : Env → Actor → Operation → Action (Unit {0})
operate env actor (Operation.list_the_projects domain state) =
    list_projects env actor domain state >> pure tt
operate env actor (Operation.quarantine_one id reason) = quarantine_project env actor id reason
operate env actor (Operation.release_one id) = release_project env actor id
operate env actor Operation.read_quota = get_quota env actor >> pure tt
operate env actor (Operation.list_the_settings scope scope_id) =
    list_settings env actor scope scope_id >> pure tt
operate env actor (Operation.put_one_setting key value scope scope_id) =
    put_setting env (setting_input actor key value scope scope_id) >> pure tt
operate env actor (Operation.search_audit f) = query_audit env actor f >> pure tt

-- Settings and the audit log are open to teachers; projects and the quota to administrators only.
abbrev pub is_entitled : Role → Operation → Bool
is_entitled Role.admin op = true
is_entitled Role.teacher (Operation.list_the_settings _ _) = true
is_entitled Role.teacher (Operation.put_one_setting _ _ _ _) = true
is_entitled Role.teacher (Operation.search_audit _) = true
is_entitled _ _ = false

-- An operation that the role of the actor does not entitle to returns the error of a refusal and makes no call,
-- whatever the ports would answer; one that it does entitle to makes a call, whatever calls were made before.
-- Administrators are entitled to all; teachers to the settings, which docs/SECURITY.md keeps to administrators, and
-- to the audit log, which the policy of internal/domain/identity refuses to them.
pub operate-IsGuarded :
    (env : Env) (actor : Actor) (op : Operation) (tr : Trace)
    → (is_entitled actor.role op ≡ false
        → operate env actor op tr ≡ (err (Err.sentinel Sentinel.forbidden), tr))
      × (is_entitled actor.role op ≡ true → length tr < length (operate env actor op tr).1)
unfolding list_projects quarantine_project release_project get_quota list_settings put_setting
    query_audit
operate-IsGuarded env actor (Operation.list_the_projects _ _) tr = (ground arith, ground arith)
operate-IsGuarded env actor (Operation.quarantine_one _ _) tr = (ground arith, ground arith)
operate-IsGuarded env actor (Operation.release_one _) tr = (ground arith, ground arith)
operate-IsGuarded env actor Operation.read_quota tr = (ground arith, ground arith)
operate-IsGuarded env actor (Operation.list_the_settings _ _) tr = (ground arith, ground arith)
operate-IsGuarded env actor (Operation.put_one_setting _ _ _ _) tr = (ground arith, ground arith)
operate-IsGuarded env actor (Operation.search_audit _) tr = (ground arith, ground arith)
