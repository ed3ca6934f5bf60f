-- ===== src/Lab.antt =====
-- internal/domain/lab: the states of a lab, its aggregate, and the methods of the aggregate.
-- A method that mutates `*LabInstance` returns the new record beside its error.
mod State
pub mod Ops
pub mod Machine
pub mod Timers
mod Tests
pub use State.{LabState, same_state}
unfoldable pub use State.{is_terminal, can_transition, state_text}
use cloud_lab_gateway.Common.{
  Bool, false, not, Option, none, some, List, [], ◌∷◌, ◌++◌, String, ◌⧺◌, if◌then◌else◌,
}
use cloud_lab_gateway.Common.Int.{ltb_ℤ}
use cloud_lab_gateway.Shared.{
  UserId, CourseId, ProjectId, LabInstanceId, LabTemplateId, SecretId, Time, Err, Sentinel,
}

-- events.go
pub data LabEvent : Type 0 where
  created : LabInstanceId → UserId → CourseId → LabTemplateId → LabEvent
  state_changed : LabInstanceId → LabState → LabState → String → LabEvent
  project_assigned : LabInstanceId → ProjectId → LabEvent
  cleanup_extended : LabInstanceId → Time → LabEvent

unfoldable pub kind : LabEvent → String
kind (created _ _ _ _) = "lab.created"
kind (state_changed _ _ _ _) = "lab.state_changed"
kind (project_assigned _ _) = "lab.project_assigned"
kind (cleanup_extended _ _) = "lab.cleanup_extended"

pub record KiResources : Type 0 where
  pub server_ids : List String
  pub network_id : String
  pub floating_ips : List String
  pub keypair_name : String

abbrev pub no_resources : KiResources
no_resources = record { server_ids = []; network_id = ""; floating_ips = []; keypair_name = "" }

pub record LabInstance : Type 0 where
  pub id : LabInstanceId
  pub student_user_id : UserId
  pub course_id : CourseId
  pub lab_template_id : LabTemplateId
  pub project_id : Option ProjectId
  pub state : LabState
  pub state_reason : String
  pub ki_resources : KiResources
  pub cleanup_at : Option Time
  pub unfreeze_at : Option Time
  pub frozen_by_user_id : Option UserId
  pub frozen_reason : String
  pub student_ssh_key_secret_id : Option SecretId
  pub checker_ssh_key_secret_id : Option SecretId
  pub created_at : Time
  pub updated_at : Time
  pub pending_events : List LabEvent

abbrev pub record_event : LabInstance → LabEvent → LabInstance
record_event l ev = record l { pending_events = l.pending_events ++ ev ∷ [] }

unfoldable pub new : LabInstanceId → UserId → CourseId → LabTemplateId → Time → LabInstance
new lab_id student course template now =
    record_event
      (record {
        id = lab_id;
        student_user_id = student;
        course_id = course;
        lab_template_id = template;
        project_id = none;
        state = LabState.pending_quota;
        state_reason = "";
        ki_resources = no_resources;
        cleanup_at = none;
        unfreeze_at = none;
        frozen_by_user_id = none;
        frozen_reason = "";
        student_ssh_key_secret_id = none;
        checker_ssh_key_secret_id = none;
        created_at = now;
        updated_at = now;
        pending_events = [];
      })
      (created lab_id student course template)

unfoldable pub transition : LabInstance → LabState → String → Time → LabInstance × Option Err
transition l to reason now =
    if not (can_transition l.state to)
    then (l, some (Err.invalid_transition "lab" (state_text l.state) (state_text to)))
    else (
      record_event (record l { state = to; state_reason = reason; updated_at = now })
          (state_changed l.id l.state to reason),
      none,
    )

abbrev when_done : LabInstance × Option Err → (LabInstance → LabInstance) → LabInstance × Option Err
when_done (l, none) f = (f l, none)
when_done (l, some e) f = (l, some e)

unfoldable pub freeze : LabInstance → UserId → String → Time → Time → LabInstance × Option Err
unfolding transition
freeze l by reason until now =
    when_done (transition l LabState.frozen ("freeze: " ⧺ reason) now) (λ t. record t {
      frozen_by_user_id = some by;
      frozen_reason = reason;
      unfreeze_at = some until;
      cleanup_at = none;
    })

unfoldable pub unfreeze : LabInstance → Time → Time → LabInstance × Option Err
unfolding transition
unfreeze l cleanup now = when_done (transition l LabState.ready "unfreeze" now) (λ t. record t {
  frozen_by_user_id = none;
  frozen_reason = "";
  unfreeze_at = none;
  cleanup_at = some cleanup;
})

-- `l.CleanupAt != nil && newCleanupAt.Before(*l.CleanupAt)`
abbrev earlier_than : Time → Option Time → Bool
earlier_than t none = false
earlier_than t (some u) = ltb_ℤ t u

unfoldable pub extend_cleanup : LabInstance → Time → Time → LabInstance × Option Err
extend_cleanup l cleanup now =
    if not (same_state l.state LabState.ready)
    then (l, some (Err.invalid_transition "lab" (state_text l.state) "extend_cleanup"))
    else if earlier_than cleanup l.cleanup_at
    then (l, some (Err.sentinel Sentinel.invalid_input))
    else (
      record_event (record l { cleanup_at = some cleanup; updated_at = now })
          (cleanup_extended l.id cleanup),
      none,
    )

unfoldable pub mark_ready : LabInstance → Time → Time → LabInstance × Option Err
unfolding transition
mark_ready l cleanup now =
    when_done (transition l LabState.ready "deploy_succeeded" now)
      (λ t. record t { cleanup_at = some cleanup })

-- The project is recorded before the transition, as in the source.
unfoldable pub assign_project : LabInstance → ProjectId → Time → LabInstance × Option Err
unfolding transition
assign_project l project now =
    if not (same_state l.state LabState.pending_project)
    then (l, some (Err.invalid_transition "lab" (state_text l.state) "assign_project"))
    else transition
        (record_event (record l { project_id = some project; updated_at = now })
          (project_assigned l.id project))
        LabState.deploying "project_assigned" now

unfoldable pub pull_events : LabInstance → LabInstance × List LabEvent
pull_events l = (record l { pending_events = [] }, l.pending_events)
