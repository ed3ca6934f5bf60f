-- ===== src/Cleanup/Stages.antt =====
-- internal/app/cleanup/saga.go: what each stage of the saga stores.
use cloud_lab_gateway.Common.{
  ℕ, suc, if◌then◌else◌, ◌≡◌, ◌≢◌, Option, none, some, List, [], ◌∷◌, String, arith,
}
use cloud_lab_gateway.Shared.{Time, panic}
use cloud_lab_gateway.Lab.{LabState, LabInstance, can_transition, transition}
use cloud_lab_gateway.Pool.{Project, ProjectState, same_state}
use cloud_lab_gateway.Ports.{Env, Trace}
use cloud_lab_gateway.Ports.Traces.{stored_labs, stored_projects}
use cloud_lab_gateway.Saving.{SameCloud, Holds, save_lab_lem}
use cloud_lab_gateway.Cleanup.{enter_cleaning, finish_lab}

-- The two labs are one but for their states, the reasons and times of these, and their events.
pub record SameLab (l l' : LabInstance) : Type 0 where
  pub id : l'.id ≡ l.id
  pub project : l'.project_id ≡ l.project_id
  pub resources : l'.ki_resources ≡ l.ki_resources

-- The states from which a lab can be cleaned up.
abbrev pub IsCleanable : LabState → Type 0
IsCleanable LabState.ready = Unit
IsCleanable LabState.frozen = Unit
IsCleanable LabState.failed = Unit
IsCleanable LabState.cleaning = Unit
IsCleanable _ = ⊥

-- What entering `cleaning` leaves for the rest of the saga.
abbrev Entered : LabInstance → Option LabInstance → Type 0
Entered lab none = ¬ (IsCleanable lab.state)
Entered lab (some l) = SameLab lab l × (l.state ≡ LabState.cleaning)

-- Follows the states of the labs stored, the last one first, from a state: `none` if one is not
-- reached from the one before it by an edge of the table.
abbrev pub walk : LabState → List LabInstance → Option LabState
walk s [] = some s
walk s (l ∷ ls) = elim (walk s ls) [
  | none ↦ none
  | some t ↦ if can_transition t l.state then some l.state else none
]

-- How many of the projects stored are free.
abbrev pub frees : List Project → ℕ
frees [] = 0
frees (p ∷ ps) =
    let rest = frees ps in if same_state p.state ProjectState.free then suc rest else rest

abbrev pub Last {ℓ} : {A : Type ℓ} → (A → Type 0) → List A → Type 0
Last P [] = ⊥
Last P (a ∷ _) = P a

abbrev pub entered_state : LabInstance → Option LabInstance → LabState
entered_state lab none = lab.state
entered_state lab (some l) = l.state

pub enter_cleaning_lem :
    (env : Env) (lab : LabInstance) (now : Time) (tr : Trace)
    → let (r, tr') = enter_cleaning env lab now tr in
      (r ≢ panic)
      × Holds (Entered lab) r
      × (stored_projects tr' ≡ stored_projects tr)
      × SameCloud tr tr'
unfolding enter_cleaning transition can_transition
enter_cleaning_lem env lab now tr =
    let l = (transition lab LabState.cleaning "cleanup" now).0 in
    let saved = save_lab_lem env l tr in
    (ground (arith, saved), ground (arith, saved), ground (arith, saved), ground (arith, saved))

pub enter_cleaning_walks :
    (s : LabState) (env : Env) (lab : LabInstance) (now : Time) (tr : Trace)
    → walk s (stored_labs tr) ≡ some lab.state
    → let (r, tr') = enter_cleaning env lab now tr in
      (walk s (stored_labs tr') ≢ none)
      × Holds (λ o. walk s (stored_labs tr') ≡ some (entered_state lab o)) r
unfolding enter_cleaning transition can_transition
enter_cleaning_walks s env lab now tr h =
    let l = (transition lab LabState.cleaning "cleanup" now).0 in
    let saved = save_lab_lem env l tr in (ground (arith, saved), ground (arith, saved))

module _ (env : Env) (lab : LabInstance) (reason : String) (now : Time) (tr : Trace)
    (c : lab.state ≡ LabState.cleaning) where
  pub finish_lab_lem :
      let (r, tr') = finish_lab env lab reason now tr in
      (r ≢ panic)
      × Holds (λ _. Last (λ l. SameLab lab l × (l.state ≡ LabState.done)) (stored_labs tr')) r
      × (stored_projects tr' ≡ stored_projects tr)
      × SameCloud tr tr'
  unfolding finish_lab transition can_transition
  finish_lab_lem =
      let l = (transition lab LabState.done reason now).0 in
      let saved = save_lab_lem env l tr in
      (ground (arith, saved), ground (arith, saved), ground (arith, saved), ground (arith, saved))

  pub finish_lab_walks :
      (s : LabState)
      → walk s (stored_labs tr) ≡ some lab.state
      → walk s (stored_labs (finish_lab env lab reason now tr).1) ≢ none
  unfolding finish_lab transition can_transition
  finish_lab_walks s h =
      ground (arith, save_lab_lem env (transition lab LabState.done reason now).0 tr)
