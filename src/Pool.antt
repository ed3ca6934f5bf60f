-- ===== src/Pool.antt =====
-- internal/domain/pool: the projects of the cloud that are rented to labs. A method that mutates
-- `*Project` returns the new record beside its outcome.
pub mod Ops
pub mod Invariant
pub mod Tenancy
mod Tests
use cloud_lab_gateway.Common.{
  ℕ, ◌+◌, Bool, true, false, not, ◌||◌, Option, none, some, List, [], ◌∷◌, ◌++◌, String, leb,
  if◌then◌else◌,
}
use cloud_lab_gateway.Shared.{ProjectId, LabInstanceId, Time, Err, Outcome, ok, err, panic}

pub data ProjectState : Type 0 where
  free allocated cleaning quarantine decommissioned : ProjectState

unfoldable pub state_text : ProjectState → String
state_text ProjectState.free = "free"
state_text ProjectState.allocated = "allocated"
state_text ProjectState.cleaning = "cleaning"
state_text ProjectState.quarantine = "quarantine"
state_text ProjectState.decommissioned = "decommissioned"

-- `==` on states
abbrev pub same_state : ProjectState → ProjectState → Bool
same_state ProjectState.free ProjectState.free = true
same_state ProjectState.allocated ProjectState.allocated = true
same_state ProjectState.cleaning ProjectState.cleaning = true
same_state ProjectState.quarantine ProjectState.quarantine = true
same_state ProjectState.decommissioned ProjectState.decommissioned = true
same_state _ _ = false

abbrev pub max_cleanup_failures : ℕ
max_cleanup_failures = 3

-- events.go
pub data ProjectEvent : Type 0 where
  allocated : ProjectId → LabInstanceId → ProjectEvent
  releasing : ProjectId → LabInstanceId → ProjectEvent
  freed : ProjectId → ProjectEvent
  quarantined : ProjectId → String → ℕ → ProjectEvent

unfoldable pub kind : ProjectEvent → String
kind (ProjectEvent.allocated _ _) = "project.allocated"
kind (ProjectEvent.releasing _ _) = "project.releasing"
kind (ProjectEvent.freed _) = "project.freed"
kind (ProjectEvent.quarantined _ _ _) = "project.quarantined"

pub record Project : Type 0 where
  pub id : ProjectId
  pub ki_project_id : String
  pub ki_domain_id : String
  pub name : String
  pub state : ProjectState
  pub allocated_to_lab_id : Option LabInstanceId
  pub cleanup_failures : ℕ
  pub last_state_change_at : Time
  pub created_at : Time
  pub pending_events : List ProjectEvent

abbrev pub record_event : Project → ProjectEvent → Project
record_event p ev = record p { pending_events = p.pending_events ++ ev ∷ [] }

abbrev refused : Project → String → Project × Outcome (Unit {0})
refused p to = (p, err (Err.invalid_transition "project" (state_text p.state) to))

unfoldable pub allocate_to : Project → LabInstanceId → Time → Project × Outcome (Unit {0})
allocate_to p lab now =
    if not (same_state p.state ProjectState.free)
    then refused p (state_text ProjectState.allocated)
    else (
      record_event
          (record p {
            state = ProjectState.allocated;
            allocated_to_lab_id = some lab;
            last_state_change_at = now;
          })
          (ProjectEvent.allocated p.id lab),
      ok tt,
    )

-- `*p.AllocatedToLabID` in the event: a nil pointer panics, after the state was written.
abbrev releasing_event : Project → Option LabInstanceId → Project × Outcome (Unit {0})
releasing_event p none = (p, panic)
releasing_event p (some lab) = (record_event p (ProjectEvent.releasing p.id lab), ok tt)

unfoldable pub release : Project → Time → Project × Outcome (Unit {0})
release p now =
    if not (same_state p.state ProjectState.allocated)
    then refused p (state_text ProjectState.cleaning)
    else releasing_event (record p { state = ProjectState.cleaning; last_state_change_at = now })
        p.allocated_to_lab_id

unfoldable pub mark_clean : Project → Time → Project × Outcome (Unit {0})
mark_clean p now =
    if not (same_state p.state ProjectState.cleaning)
    then refused p (state_text ProjectState.free)
    else (
      record_event
          (record p {
            state = ProjectState.free;
            allocated_to_lab_id = none;
            cleanup_failures = 0;
            last_state_change_at = now;
          })
          (ProjectEvent.freed p.id),
      ok tt,
    )

-- The counter of failures, a Go int, comes from a column of 32 bits and never wraps.
unfoldable pub record_cleanup_failure : Project → String → Time → Project × Outcome (Unit {0})
record_cleanup_failure p reason now =
    if not (same_state p.state ProjectState.cleaning)
    then refused p "cleanup_failure"
    else let q = record p {
      cleanup_failures = p.cleanup_failures + 1;
      last_state_change_at = now;
    } in
      if leb max_cleanup_failures q.cleanup_failures
      then (
        record_event (record q { state = ProjectState.quarantine })
            (ProjectEvent.quarantined q.id reason q.cleanup_failures),
        ok tt,
      )
      else (q, ok tt)

unfoldable pub quarantine_now : Project → String → Time → Project × Outcome (Unit {0})
quarantine_now p reason now =
    if same_state p.state ProjectState.decommissioned || same_state p.state ProjectState.quarantine
    then refused p (state_text ProjectState.quarantine)
    else (
      record_event (record p { state = ProjectState.quarantine; last_state_change_at = now })
          (ProjectEvent.quarantined p.id reason p.cleanup_failures),
      ok tt,
    )

unfoldable pub manual_resolve : Project → Time → Project × Outcome (Unit {0})
manual_resolve p now =
    if not (same_state p.state ProjectState.quarantine)
    then refused p (state_text ProjectState.cleaning)
    else (
      record p { state = ProjectState.cleaning; cleanup_failures = 0; last_state_change_at = now },
      ok tt,
    )

unfoldable pub pull_events : Project → Project × List ProjectEvent
pull_events p = (record p { pending_events = [] }, p.pending_events)

-- The lab that internal/adapters/storage/pgxrepo/pool.go writes for a project in a state.
unfoldable pub allocated_lab_for_state : Project → Option LabInstanceId
allocated_lab_for_state p =
    if same_state p.state ProjectState.allocated || same_state p.state ProjectState.cleaning
    then p.allocated_to_lab_id
    else none
