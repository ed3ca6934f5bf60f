-- ===== src/Admin.antt =====
-- internal/app/admin/admin.go: the requests of administrators and teachers; and HandleTask of
-- internal/app/quotarefresh/refresh.go, which fills the cache that the quota is read from.
pub mod Projects
pub mod Access
pub mod Settings
mod Tests
use cloud_lab_gateway.Common.{
  ℕ, Bool, true, false, not, ◌&&◌, ◌||◌, Option, none, some, List, [], ◌∷◌, String, str_eq,
  if◌then◌else◌,
}
use cloud_lab_gateway.Common.Int.{ℤ}
use cloud_lab_gateway.Shared.{UserId, ProjectId, Time, Err, Sentinel, Outcome, ok, err, panic}
use cloud_lab_gateway.Shared.Quantities.{QuotaSnapshot}
use cloud_lab_gateway.Pool.{
  Project, ProjectState, state_text, mark_clean, manual_resolve, quarantine_now,
}
use cloud_lab_gateway.Identity.{Role}
use cloud_lab_gateway.Ports.{
  Env, Call, Setting, AuditFilter, AuditEvent, Action, pure, throw, lift, perform, read_clock, wrap,
  with_tx, ◌>>=◌, ◌>>◌,
}
use cloud_lab_gateway.Saving.{moved_project}

pub record Actor : Type 0 where
  pub user_id : UserId
  pub role : Role

pub record PutSettingInput : Type 0 where
  pub actor : Actor
  pub key : String
  pub value : List ℕ
  pub scope : String
  pub scope_id : Option String

abbrev forbidden : Option Err
forbidden = some (Err.sentinel Sentinel.forbidden)

abbrev pub require_admin : Role → Option Err
require_admin Role.admin = none
require_admin _ = forbidden

abbrev pub require_teacher_or_admin : Role → Option Err
require_teacher_or_admin Role.admin = none
require_teacher_or_admin Role.teacher = none
require_teacher_or_admin _ = forbidden

pub list_projects : Env → Actor → String → Option ProjectState → Action (List Project)
list_projects env actor domain state = do
  lift (require_admin actor.role)
  perform (Call.pool_list domain state) (env.pool_list domain state)

pub quarantine_project : Env → Actor → ProjectId → String → Action (Unit {0})
unfolding quarantine_now with_tx
quarantine_project env actor id reason = do
  lift (require_admin actor.role)
  now ← read_clock env
  with_tx env (do
    project ← perform (Call.pool_get id) (env.pool_get id)
    p ← moved_project (quarantine_now project reason now)
    perform (Call.pool_save p) (env.pool_save p))

save_in_tx : Env → Project → Action (Unit {0})
save_in_tx env p = perform (Call.pool_save p) (env.pool_save p)

-- The switch on the state of the project.
pub release_from : Env → Project → Time → ProjectState → Action (Unit {0})
unfolding manual_resolve mark_clean save_in_tx
release_from env project now ProjectState.free = pure tt
release_from env project now ProjectState.quarantine = do
  p ← moved_project (manual_resolve project now)
  q ← moved_project (mark_clean p now)
  save_in_tx env q
release_from env project now ProjectState.cleaning = do
  q ← moved_project (mark_clean project now)
  save_in_tx env q
release_from env project now s =
    throw (Err.invalid_transition "project" (state_text s) (state_text ProjectState.free))

pub release_project : Env → Actor → ProjectId → Action (Unit {0})
unfolding release_from with_tx
release_project env actor id = do
  lift (require_admin actor.role)
  now ← read_clock env
  with_tx env (do
    project ← perform (Call.pool_get id) (env.pool_get id)
    release_from env project now project.state)

pub get_quota : Env → Actor → Action QuotaSnapshot
get_quota env actor = do
  lift (require_admin actor.role)
  read ← perform Call.quota_read env.quota_read
  pure read.0

pub list_settings : Env → Actor → String → Option String → Action (List Setting)
list_settings env actor scope scope_id = do
  lift (require_teacher_or_admin actor.role)
  perform (Call.settings_list scope scope_id) (env.settings_list scope scope_id)

abbrev non_empty : Option String → Option String
non_empty none = none
non_empty (some s) = if str_eq s "" then none else some s

abbrev pub normalized_scope_id : String → Option String → Option String
normalized_scope_id scope scope_id = if str_eq scope "global" then none else non_empty scope_id

abbrev pub setting_of : PutSettingInput → Time → Setting
setting_of i now = record {
  key = i.key;
  value = i.value;
  scope = i.scope;
  scope_id = normalized_scope_id i.scope i.scope_id;
  updated_by_user = i.actor.user_id;
  updated_at = now;
}

pub put_setting : Env → PutSettingInput → Action Setting
unfolding with_tx
put_setting env i = do
  lift (require_teacher_or_admin i.actor.role)
  now ← read_clock env
  with_tx env (perform (Call.settings_put (setting_of i now)) (env.settings_put (setting_of i now)))
  pure (setting_of i now)

pub query_audit : Env → Actor → AuditFilter → Action (List AuditEvent)
query_audit env actor f = do
  lift (require_teacher_or_admin actor.role)
  perform (Call.audit_query f) (env.audit_query f)

-- `has_cloud` and `has_cache` say which collaborators are wired.
pub handle_task : Env → Bool → Bool → Action (Unit {0})
handle_task env has_cloud has_cache =
    if not (has_cloud && has_cache)
    then throw (Err.external "quotarefresh: missing dependencies")
    else (do
      snap ←
          wrap "quotarefresh: get quota snapshot" (perform Call.quota_snapshot env.quota_snapshot)
      wrap "quotarefresh: write quota cache"
          (perform (Call.quota_write snap) (env.quota_write snap)))
