-- ===== src/Identity.antt =====
-- internal/domain/identity: roles, the actions that the policy authorises, and the policy.
pub mod Rules
mod Tests
use cloud_lab_gateway.Common.{
  ℕ, Bool, true, false, not, ◌&&◌, ◌||◌, Option, none, some, List, [], ◌∷◌, String, ◌==◌,
  if◌then◌else◌,
}
use cloud_lab_gateway.Shared.{UserId, CourseId, LabInstanceId, Err, Sentinel}

pub data Role : Type 0 where
  student teacher admin : Role

abbrev pub is_admin : Role → Bool
is_admin Role.admin = true
is_admin _ = false

abbrev pub is_teacher : Role → Bool
is_teacher Role.teacher = true
is_teacher _ = false

abbrev pub is_student : Role → Bool
is_student Role.student = true
is_student _ = false

pub data CourseRole : Type 0 where
  learner course_teacher : CourseRole

-- The map from courses to roles; the first entry of a course counts.
abbrev pub CourseRoles : Type 0
CourseRoles = List (CourseId × CourseRole)

unfoldable pub role_in : CourseId → CourseRoles → Option CourseRole
role_in c [] = none
role_in c ((d, r) ∷ m) = if c == d then some r else role_in c m

abbrev pub teaches_as : Option CourseRole → Bool
teaches_as (some CourseRole.course_teacher) = true
teaches_as _ = false

-- `subj.CourseRoles[course] == CourseRoleTeacher`
unfoldable pub teaches : CourseRoles → CourseId → Bool
unfolding role_in
teaches m c = teaches_as (role_in c m)

pub data Action : Type 0 where
  lab_create lab_read lab_freeze lab_unfreeze lab_extend lab_delete lab_ssh_key check_run : Action
  admin_pool admin_setting admin_quota admin_audit : Action
  unknown : String → Action

pub record LabResource : Type 0 where
  pub lab_id : LabInstanceId
  pub owner_id : UserId
  pub course_id : CourseId

pub data Resource : Type 0 where
  lab_resource : LabResource → Resource
  course_resource : CourseId → Resource
  global_admin_resource : Resource

pub record Subject : Type 0 where
  pub user_id : UserId
  pub role : Role
  pub course_roles : CourseRoles

abbrev pub forbidden : Option Err
forbidden = some (Err.sentinel Sentinel.forbidden)

abbrev is_ssh_key : Action → Bool
is_ssh_key Action.lab_ssh_key = true
is_ssh_key _ = false

abbrev is_unfreeze_or_extend : Action → Bool
is_unfreeze_or_extend Action.lab_unfreeze = true
is_unfreeze_or_extend Action.lab_extend = true
is_unfreeze_or_extend _ = false

unfoldable pub can_act_on_lab : Subject → Action → Resource → Option Err
unfolding teaches
can_act_on_lab subj action (Resource.course_resource _) = forbidden
can_act_on_lab subj action Resource.global_admin_resource = forbidden
can_act_on_lab subj action (Resource.lab_resource lab) =
    if is_admin subj.role
    then none
    else if teaches subj.course_roles lab.course_id
    then (if is_ssh_key action then forbidden else none)
    else if not (lab.owner_id == subj.user_id)
    then forbidden
    else if is_unfreeze_or_extend action
    then forbidden
    else none

-- `DefaultPolicy.Can`; its last line refuses an action that is none of the constants.
unfoldable pub can : Subject → Action → Resource → Option Err
unfolding can_act_on_lab
can subj Action.admin_pool res = if is_admin subj.role then none else forbidden
can subj Action.admin_audit res = if is_admin subj.role then none else forbidden
can subj Action.admin_quota res = if is_admin subj.role then none else forbidden
can subj Action.admin_setting res =
    if is_admin subj.role || is_teacher subj.role then none else forbidden
can subj (Action.unknown _) res = forbidden
can subj action res = can_act_on_lab subj action res
