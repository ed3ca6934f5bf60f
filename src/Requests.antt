-- ===== src/Requests.antt =====
-- internal/app/lab/ops.go: the requests on one lab, as the HTTP interface hands them on.
pub mod Handling
pub mod Keys
pub mod Listing
mod Tests
use cloud_lab_gateway.Common.{
  ℕ, Bool, true, false, not, ◌&&◌, ◌||◌, ◌==◌, Option, none, some, List, String, ◌⧺◌, if◌then◌else◌,
}
use cloud_lab_gateway.Common.Int.{ℤ, pos, ◌+ℤ◌, ◌*ℤ◌, wrap64, ltb_ℤ}
use cloud_lab_gateway.Shared.{UserId, LabInstanceId, SecretId, Time, Err, Sentinel}
use cloud_lab_gateway.Lab.{
  LabState, LabInstance, same_state, state_text, transition, freeze, unfreeze, extend_cleanup,
}
use cloud_lab_gateway.Identity
use cloud_lab_gateway.Identity.{Role, CourseRoles, Resource, can, is_student}
use cloud_lab_gateway.Ports.{
  Env, Call, Payload, Task, TaskType, DeployStep, Action, pure, throw, lift, when, perform,
  read_clock, attempt, wrap, ◌>>=◌, ◌>>◌,
}
use cloud_lab_gateway.Saving.{save_lab, moved_lab}

pub record Actor : Type 0 where
  pub user_id : UserId
  pub role : Role
  pub course_roles : CourseRoles

-- Which collaborators are wired, and the durations configured, 0 for the default.
pub record Deps : Type 0 where
  pub has_queue : Bool
  pub has_steps : Bool
  pub has_secrets : Bool
  pub default_cleanup_after : ℤ
  pub default_freeze_for : ℤ

-- two hours
unfoldable pub cleanup_after : Deps → ℤ
cleanup_after d =
    if ltb_ℤ (pos 0) d.default_cleanup_after then d.default_cleanup_after else pos 7200000000000

-- one day
unfoldable pub freeze_for : Deps → ℤ
freeze_for d =
    if ltb_ℤ (pos 0) d.default_freeze_for then d.default_freeze_for else pos 86400000000000

abbrev pub subject_of : Actor → Identity.Subject
subject_of a = record { user_id = a.user_id; role = a.role; course_roles = a.course_roles }

abbrev pub resource_of : LabInstance → Resource
resource_of lab =
    Resource.lab_resource
      (record { lab_id = lab.id; owner_id = lab.student_user_id; course_id = lab.course_id })

unfoldable pub can_lab : Actor → Identity.Action → LabInstance → Option Err
can_lab a action lab = can (subject_of a) action (resource_of lab)

load_lab : Env → LabInstanceId → Action LabInstance
load_lab env id = perform (Call.lab_get id) (env.lab_get id)

abbrev pub is_stoppable : LabState → Bool
is_stoppable s =
    same_state s LabState.ready || same_state s LabState.frozen || same_state s LabState.failed

abbrev pub manual_cleanup : Env → LabInstance → Task
manual_cleanup env lab = record {
  kind = TaskType.cleanup_lab;
  payload = Payload.lab_body (env.uuid_text lab.id);
  idempotency_key = "cleanup:" ⧺ env.uuid_text lab.id ⧺ ":manual";
  max_retries = 5;
}

-- A task that cannot be enqueued is logged.
enqueue_cleanup : Env → Task → Action (Unit {0})
enqueue_cleanup env t = do attempt (perform (Call.enqueue t) (env.enqueue t)); pure tt

pub stop_lab : Env → Deps → Actor → LabInstanceId → Action LabInstance
unfolding load_lab transition enqueue_cleanup
stop_lab env d actor id = do
  lab ← load_lab env id
  lift (can_lab actor Identity.Action.lab_delete lab)
  if not (is_stoppable lab.state)
      then throw
          (Err.invalid_transition "lab" (state_text lab.state) (state_text LabState.cleaning))
      else (do
        now ← read_clock env
        l ← moved_lab (transition lab LabState.cleaning "stop_requested" now)
        l' ← save_lab env l
        when d.has_queue (enqueue_cleanup env (manual_cleanup env l'))
        pure l')

-- `time.Duration(*in.FreezeForSeconds) * time.Second`, or the default
unfoldable pub duration_of : Deps → Option ℤ → ℤ
duration_of d none = freeze_for d
duration_of d (some n) = wrap64 (n *ℤ pos 1000000000)

abbrev pub is_some {ℓ} : {A : Type ℓ} → Option A → Bool
is_some none = false
is_some (some _) = true

pub freeze_lab : Env → Deps → Actor → LabInstanceId → String → Option ℤ → Action LabInstance
unfolding load_lab freeze
freeze_lab env d actor id reason seconds = do
  lab ← load_lab env id
  lift (can_lab actor Identity.Action.lab_freeze lab)
  if is_some seconds && is_student actor.role then throw (Err.sentinel Sentinel.forbidden) else (do
    now ← read_clock env
    l ← moved_lab (freeze lab actor.user_id reason (now +ℤ duration_of d seconds) now)
    save_lab env l)

pub unfreeze_lab : Env → Deps → Actor → LabInstanceId → Action LabInstance
unfolding load_lab unfreeze
unfreeze_lab env d actor id = do
  lab ← load_lab env id
  lift (can_lab actor Identity.Action.lab_unfreeze lab)
  now ← read_clock env
  l ← moved_lab (unfreeze lab (now +ℤ cleanup_after d) now)
  save_lab env l

pub extend_lab : Env → Actor → LabInstanceId → ℤ → Action LabInstance
unfolding load_lab extend_cleanup
extend_lab env actor id extend_by = do
  lab ← load_lab env id
  lift (can_lab actor Identity.Action.lab_extend lab)
  now ← read_clock env
  l ← moved_lab (extend_cleanup lab (now +ℤ extend_by) now)
  save_lab env l

load_steps : Env → Deps → LabInstanceId → Action (List DeployStep)
load_steps env d id =
    if d.has_steps
    then wrap "get lab: deploy steps" (perform (Call.steps_list id) (env.steps_list id))
    else pure List.[]

pub get_lab : Env → Deps → Actor → LabInstanceId → Action (LabInstance × List DeployStep)
unfolding load_lab load_steps
get_lab env d actor id = do
  lab ← load_lab env id
  lift (can_lab actor Identity.Action.lab_read lab)
  steps ← load_steps env d id
  pure (lab, steps)

read_key : Env → Deps → LabInstance → Option SecretId → Action (List ℕ)
read_key env d lab none = throw (Err.sentinel Sentinel.not_found)
read_key env d lab (some s) =
    if not d.has_secrets
    then throw (Err.sentinel Sentinel.not_found)
    else perform (Call.secrets_get s "ssh_private_key" (env.uuid_text lab.id))
        (env.secrets_get s "ssh_private_key" (env.uuid_text lab.id))

pub get_lab_ssh_key : Env → Deps → Actor → LabInstanceId → Action (List ℕ)
unfolding load_lab read_key
get_lab_ssh_key env d actor id = do
  lab ← load_lab env id
  if not (lab.student_user_id == actor.user_id)
      then throw (Err.sentinel Sentinel.forbidden)
      else read_key env d lab lab.student_ssh_key_secret_id
