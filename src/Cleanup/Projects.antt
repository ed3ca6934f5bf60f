-- ===== src/Cleanup/Projects.antt =====
-- internal/app/cleanup/saga.go: what the saga does to the project of a lab.
use cloud_lab_gateway.Common.{◌+◌, ◌≤◌, ◌≡◌, ◌≢◌, refl, Option, none, some, arith, inl, inr}
use cloud_lab_gateway.Shared.{Time, Err, error_text, ok, panic, ProjectId, SecretId}
use cloud_lab_gateway.Lab.{LabState, LabInstance}
use cloud_lab_gateway.Pool.{
  Project, ProjectState, max_cleanup_failures, release, mark_clean, record_cleanup_failure,
}
use cloud_lab_gateway.Ports.{Env, Call, Trace, Answer-cases}
use cloud_lab_gateway.Ports.Traces.{called, stored_labs, stored_projects}
use cloud_lab_gateway.Saving.{SameCloud, Holds, save_project, save_project_lem}
use cloud_lab_gateway.Cleanup.{
  release_allocated, load_project, count_failure, after_failure, free_project, drop_key,
  after_success,
}
use cloud_lab_gateway.Cleanup.Stages.{SameLab, walk, frees, Last, finish_lab_lem, finish_lab_walks}

-- A stage that stores no lab, frees no project and deletes nothing.
pub record IsQuiet (tr tr' : Trace) : Type 0 where
  pub labs : stored_labs tr' ≡ stored_labs tr
  pub free : frees (stored_projects tr') ≡ frees (stored_projects tr)
  pub cloud : SameCloud tr tr'

-- The project that the rest of the saga goes on with, from the one in the storage.
abbrev pub Released : Project → Project → Type 0
Released p q =
    (q.state ≢ ProjectState.allocated)
    × (q.cleanup_failures ≡ p.cleanup_failures)
    × (p.state ≢ ProjectState.allocated → q ≡ p)
    × (p.state ≡ ProjectState.allocated → q.state ≡ ProjectState.cleaning)

pub release_allocated_lem :
    (env : Env) (p : Project) (now : Time) (tr : Trace)
    → let (r, tr') = release_allocated env p now tr in Holds (Released p) r × IsQuiet tr tr'
unfolding release_allocated release
release_allocated_lem env p now tr =
    let saved = save_project_lem env (release p now).0 tr in
    (ground (arith, saved), ground (arith, saved))

pub load_project_lem :
    (env : Env) (id : Option ProjectId) (now : Time) (tr : Trace)
    → IsQuiet tr (load_project env id now tr).1
unfolding load_project
load_project_lem env none now tr = ground arith
load_project_lem env (some id) now tr = elim (Answer-cases (env.pool_get id tr)) [
  | inl (p, e) ↦ ground (arith, e, release_allocated_lem env p now (called (Call.pool_get id) tr))
  | inr (x, e) ↦ ground arith
]

abbrev pub Finished : LabInstance → Trace → Type 0
Finished lab tr = Last (λ l. SameLab lab l × (l.state ≡ LabState.done)) (stored_labs tr)

module _ (env : Env) (lab : LabInstance) (p : Project) (e : Err) (now : Time) (tr : Trace)
    (c : lab.state ≡ LabState.cleaning) (pc : p.state ≡ ProjectState.cleaning) where
  -- A failed teardown returns no error only when it was the third, and then the lab is done.
  pub count_failure_lem :
      let (r, tr') = count_failure env lab p e now tr in
      (r ≢ panic)
      × Holds (λ _. (max_cleanup_failures ≤ p.cleanup_failures + 1) × Finished lab tr') r
      × (frees (stored_projects tr') ≡ frees (stored_projects tr))
  unfolding count_failure record_cleanup_failure
  count_failure_lem =
      let q = (record_cleanup_failure p (error_text e) now).0 in
      let saved = save_project_lem env q tr in
      let finished =
        finish_lab_lem env lab "cleanup_failed_quarantined" now (save_project env q tr).1 c in
      (
        ground (arith, saved, finished),
        ground (arith, saved, finished),
        ground (arith, saved, finished),
      )

  pub count_failure_walks :
      (s : LabState)
      → walk s (stored_labs tr) ≡ some lab.state
      → walk s (stored_labs (count_failure env lab p e now tr).1) ≢ none
  unfolding count_failure record_cleanup_failure
  count_failure_walks s h =
      let q = (record_cleanup_failure p (error_text e) now).0 in
      ground (
        arith,
        save_project_lem env q tr,
        finish_lab_walks env lab "cleanup_failed_quarantined" now (save_project env q tr).1 c s,
      )

module _ (env : Env) (lab : LabInstance) (now : Time) (c : lab.state ≡ LabState.cleaning) where
  pub after_failure_lem :
      (project : Option Project) (e : Err) (tr : Trace)
      → let (r, tr') = after_failure env lab project e now tr in
        (r ≢ panic)
        × Holds (λ _. Finished lab tr') r
        × (frees (stored_projects tr') ≡ frees (stored_projects tr))
  unfolding after_failure
  after_failure_lem none e tr = ((λ h. cc), tt, refl)
  after_failure_lem (some p) e tr =
      let counted = count_failure_lem env lab p e now tr c in
      (ground (arith, counted), ground (arith, counted), ground (arith, counted))

  pub after_failure_walks :
      (project : Option Project) (e : Err) (s : LabState) (tr : Trace)
      → walk s (stored_labs tr) ≡ some lab.state
      → walk s (stored_labs (after_failure env lab project e now tr).1) ≢ none
  unfolding after_failure
  after_failure_walks none e s tr h = ground arith
  after_failure_walks (some p) e s tr h = ground (
    arith,
    λ (pc : p.state ≡ ProjectState.cleaning). count_failure_walks env lab p e now tr c pc s h,
  )

-- A stage that stores no lab and deletes nothing; it may free a project.
record IsCalm (tr tr' : Trace) : Type 0 where
  labs : stored_labs tr' ≡ stored_labs tr
  cloud : SameCloud tr tr'

free_project_lem :
    (env : Env) (project : Option Project) (now : Time) (tr : Trace)
    → let (r, tr') = free_project env project now tr in (r ≢ panic) × IsCalm tr tr'
unfolding free_project mark_clean
free_project_lem env none now tr = ((λ h. cc), ground arith)
free_project_lem env (some p) now tr =
    let saved = save_project_lem env (mark_clean p now).0 tr in
    (ground (arith, saved), ground (arith, saved))

drop_key_lem :
    (env : Env) (key : Option SecretId) (tr : Trace)
    → let (r, tr') = drop_key env key tr in (r ≡ ok tt) × IsQuiet tr tr'
unfolding drop_key
drop_key_lem env none tr = ground arith
drop_key_lem env (some k) tr = ground arith

module _ (env : Env) (lab : LabInstance) (project : Option Project) (now : Time) (tr : Trace)
    (c : lab.state ≡ LabState.cleaning) where
  pub after_success_lem :
      let (r, tr') = after_success env lab project now tr in
      (r ≢ panic) × Holds (λ _. Finished lab tr') r × SameCloud tr tr'
  unfolding after_success
  after_success_lem =
      let mid = (free_project env project now tr).1 in
      let key = lab.checker_ssh_key_secret_id in
      let freed = free_project_lem env project now tr in
      let dropped = drop_key_lem env key mid in
      let done = finish_lab_lem env lab "cleanup_complete" now (drop_key env key mid).1 c in
      (
        ground (arith, freed, dropped, done),
        ground (arith, freed, dropped, done),
        ground (arith, freed, dropped, done),
      )

  pub after_success_walks :
      (s : LabState)
      → walk s (stored_labs tr) ≡ some lab.state
      → walk s (stored_labs (after_success env lab project now tr).1) ≢ none
  unfolding after_success
  after_success_walks s h =
      let mid = (free_project env project now tr).1 in
      let key = lab.checker_ssh_key_secret_id in
      ground (
        arith,
        free_project_lem env project now tr,
        drop_key_lem env key mid,
        finish_lab_walks env lab "cleanup_complete" now (drop_key env key mid).1 c s,
      )

-- With no project there is none to free.
pub after_success-none :
    (env : Env) (lab : LabInstance) (now : Time) (tr : Trace)
    → lab.state ≡ LabState.cleaning
    → frees (stored_projects (after_success env lab none now tr).1) ≡ frees (stored_projects tr)
unfolding after_success free_project
after_success-none env lab now tr c =
    let key = lab.checker_ssh_key_secret_id in
    ground (
      arith,
      drop_key_lem env key tr,
      finish_lab_lem env lab "cleanup_complete" now (drop_key env key tr).1 c,
    )
