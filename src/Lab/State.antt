-- ===== src/Lab/State.antt =====
-- internal/domain/lab/state.go: the states and the table of transitions. A state is one of the
-- ten constants; the storage admits no other text.
use cloud_lab_gateway.Common.{Bool, true, false, ◌||◌, String, List, [], ◌∷◌}

pub data LabState : Type 0 where
  pending_quota pending_project deploying ready checking frozen failed cleaning : LabState
  done rejected : LabState

pub LabState-discrete : Discrete LabState
LabState-discrete = hlevel

-- the texts of the constants
unfoldable pub state_text : LabState → String
state_text LabState.pending_quota = "pending_quota"
state_text LabState.pending_project = "pending_project"
state_text LabState.deploying = "deploying"
state_text LabState.ready = "ready"
state_text LabState.checking = "checking"
state_text LabState.frozen = "frozen"
state_text LabState.failed = "failed"
state_text LabState.cleaning = "cleaning"
state_text LabState.done = "done"
state_text LabState.rejected = "rejected"

-- `==` on states
abbrev pub same_state : LabState → LabState → Bool
same_state LabState.pending_quota LabState.pending_quota = true
same_state LabState.pending_project LabState.pending_project = true
same_state LabState.deploying LabState.deploying = true
same_state LabState.ready LabState.ready = true
same_state LabState.checking LabState.checking = true
same_state LabState.frozen LabState.frozen = true
same_state LabState.failed LabState.failed = true
same_state LabState.cleaning LabState.cleaning = true
same_state LabState.done LabState.done = true
same_state LabState.rejected LabState.rejected = true
same_state _ _ = false

abbrev pub contains : LabState → List LabState → Bool
contains s [] = false
contains s (t ∷ ts) = same_state s t || contains s ts

unfoldable pub is_terminal : LabState → Bool
is_terminal s = same_state s LabState.done || same_state s LabState.rejected

abbrev pub allowed_transitions : LabState → List LabState
allowed_transitions LabState.pending_quota = LabState.rejected ∷ LabState.pending_project ∷ []
allowed_transitions LabState.pending_project = LabState.rejected ∷ LabState.deploying ∷ []
allowed_transitions LabState.deploying = LabState.ready ∷ LabState.failed ∷ []
allowed_transitions LabState.ready = LabState.checking ∷ LabState.frozen ∷ LabState.cleaning ∷ []
allowed_transitions LabState.checking = LabState.ready ∷ []
allowed_transitions LabState.frozen = LabState.ready ∷ LabState.cleaning ∷ []
allowed_transitions LabState.failed = LabState.cleaning ∷ []
allowed_transitions LabState.cleaning = LabState.done ∷ LabState.cleaning ∷ []
allowed_transitions LabState.done = []
allowed_transitions LabState.rejected = []

unfoldable pub can_transition : LabState → LabState → Bool
can_transition from to = contains to (allowed_transitions from)
