-- ===== src/Cleanup/Ending.antt =====
-- internal/app/cleanup/saga.go, Run: how the saga ends, whatever the calls behind the ports answer.
use cloud_lab_gateway.Common.{false, ◌<◌, ◌≡◌, ◌≢◌, Option, none, some, arith, inl, inr}
use cloud_lab_gateway.Shared.{ProjectId, Time, Err, Outcome-cases, panic}
use cloud_lab_gateway.Lab.{LabState, LabInstance}
use cloud_lab_gateway.Ports.{Env, Trace, Action, attempt, ◌>>=◌}
use cloud_lab_gateway.Pool.{Project}
use cloud_lab_gateway.Ports.Traces.{stored_labs, stored_projects}
use cloud_lab_gateway.Saving.{Holds}
use cloud_lab_gateway.Cleanup.{load_project, teardown, teardown_in, settle, clean, after_failure}
use cloud_lab_gateway.Cleanup.Teardown.{IsTornDown, teardown_in_writes, teardown_in_deletes}
use cloud_lab_gateway.Cleanup.Stages.{walk, frees}
use cloud_lab_gateway.Cleanup.Projects.{
  Finished, load_project_lem, after_failure_lem, after_failure_walks, after_success_lem,
  after_success_walks, after_success-none,
}

teardown_writes :
    (env : Env) (lab : LabInstance) (tr : Trace)
    → let (r, tr') = teardown env lab tr in
      (r ≢ panic) × (stored_labs tr' ≡ stored_labs tr) × (stored_projects tr' ≡ stored_projects tr)
unfolding teardown
teardown_writes env lab tr = teardown_in_writes env lab lab.project_id false tr

-- The stages after a project has been loaded.
pub settled : Env → LabInstance → Option Project → Time → Action (Unit {0})
settled env lab project now = attempt (teardown env lab) >>= settle env lab project now

module _ (env : Env) (lab : LabInstance) (now : Time) (c : lab.state ≡ LabState.cleaning) where
  pub settled-Finished :
      (project : Option Project) (tr : Trace)
      → let (r, tr') = settled env lab project now tr in
        (r ≢ panic) × Holds (λ _. Finished lab tr') r
  unfolding settled settle
  settled-Finished project tr =
      let after = (teardown env lab tr).1 in
      let written = teardown_writes env lab tr in
      let success = after_success_lem env lab project now after c in
      let failure = λ (e : Err). after_failure_lem env lab now c project e after in
      elim (Outcome-cases (teardown env lab tr).0) [
        | inl (x, e) ↦ (ground (arith, e, success), ground (arith, e, success))
        | inr (inl (x, e)) ↦ (ground (arith, e, failure x), ground (arith, e, failure x))
        | inr (inr e) ↦ absurd (written.0 e)
      ]

  pub settled-walks :
      (project : Option Project) (s : LabState) (tr : Trace)
      → walk s (stored_labs tr) ≡ some lab.state
      → walk s (stored_labs (settled env lab project now tr).1) ≢ none
  unfolding settled settle
  settled-walks project s tr h =
      let after = (teardown env lab tr).1 in
      let written = teardown_writes env lab tr in
      let success = after_success_walks env lab project now after c s in
      let failure = λ (e : Err). after_failure_walks env lab now c project e s after in
      elim (Outcome-cases (teardown env lab tr).0) [
        | inl (x, e) ↦ ground (arith, e, success, written)
        | inr (inl (x, e)) ↦ ground (arith, e, failure x, written)
        | inr (inr e) ↦ absurd (written.0 e)
      ]

-- A project is freed only after all that the lab names has been deleted.
pub freed_lem :
    (env : Env) (lab : LabInstance) (id : ProjectId) (now : Time) (project : Option Project)
    (tr : Trace)
    → lab.state ≡ LabState.cleaning
    → lab.project_id ≡ some id
    → let tr' = (settled env lab project now tr).1 in
      frees (stored_projects tr) < frees (stored_projects tr') → IsTornDown lab tr tr'
unfolding settled settle teardown
freed_lem env lab id now project tr c i more =
    let after = (teardown_in env lab (some id) tr).1 in
    let written = teardown_in_writes env lab (some id) false tr in
    let success = after_success_lem env lab project now after c in
    let failure = λ (e : Err). after_failure_lem env lab now c project e after in
    elim (Outcome-cases (teardown_in env lab (some id) tr).0) [
      | inl (x, e) ↦ ground (arith, i, e, success, written, teardown_in_deletes env lab id tr)
      | inr (inl (x, e)) ↦ ground (arith, i, e, failure x, written)
      | inr (inr e) ↦ absurd (written.0 e)
    ]

free_none :
    (env : Env) (lab : LabInstance) (now : Time) (tr : Trace)
    → lab.state ≡ LabState.cleaning
    → frees (stored_projects (settled env lab none now tr).1) ≡ frees (stored_projects tr)
unfolding settled settle after_failure
free_none env lab now tr c =
    let after = (teardown env lab tr).1 in
    let written = teardown_writes env lab tr in
    elim (Outcome-cases (teardown env lab tr).0) [
      | inl (x, e) ↦ ground (arith, e, written, after_success-none env lab now after c)
      | inr (inl (x, e)) ↦ ground (arith, e, written)
      | inr (inr e) ↦ absurd (written.0 e)
    ]

-- The rest of the saga, on a lab that is in cleaning.
module _ (env : Env) (lab : LabInstance) (now : Time) (c : lab.state ≡ LabState.cleaning) where
  pub clean-Finished :
      (tr : Trace) → let (r, tr') = clean env (some lab) now tr in Holds (λ _. Finished lab tr') r
  unfolding clean
  clean-Finished tr =
      let (r, mid) = load_project env lab.project_id now tr in
      elim (Outcome-cases r) [
        | inl (project, e) ↦
            unfold settled in ground (arith, e, settled-Finished env lab now c project mid)
        | inr (inl (x, e)) ↦ ground (arith, e)
        | inr (inr e) ↦ ground (arith, e)
      ]

  pub clean-walks :
      (s : LabState) (tr : Trace)
      → walk s (stored_labs tr) ≡ some lab.state
      → walk s (stored_labs (clean env (some lab) now tr).1) ≢ none
  unfolding clean
  clean-walks s tr h =
      let (r, mid) = load_project env lab.project_id now tr in
      let loaded = load_project_lem env lab.project_id now tr in
      elim (Outcome-cases r) [
        | inl (project, e) ↦
            unfold settled in ground (arith, e, loaded, settled-walks env lab now c project s mid)
        | inr (inl (x, e)) ↦ ground (arith, e, loaded)
        | inr (inr e) ↦ ground (arith, e, loaded)
      ]

  pub clean-frees_of :
      (id : Option ProjectId) (tr : Trace)
      → lab.project_id ≡ id
      → let tr' = (clean env (some lab) now tr).1 in
        frees (stored_projects tr) < frees (stored_projects tr') → IsTornDown lab tr tr'
  unfolding clean load_project
  clean-frees_of none tr i more =
      unfold settled in absurd (ground (arith, i, free_none env lab now tr c))
  clean-frees_of (some id) tr i more =
      let (r, mid) = load_project env lab.project_id now tr in
      let loaded = load_project_lem env lab.project_id now tr in
      elim (Outcome-cases r) [
        | inl (project, e) ↦
            unfold settled in ground (arith, e, loaded, freed_lem env lab id now project mid c i)
        | inr (inl (x, e)) ↦ absurd (ground (arith, e, loaded))
        | inr (inr e) ↦ absurd (ground (arith, e, loaded))
      ]
